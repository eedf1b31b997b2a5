-- ===== src/Comms/Downlink.antt =====
-- From `send_tel_from_to` of src/system/cmdTM.c on one side to `com_receive_tm` of
-- src/system/taskCommunications.c on the other.
use mathlib.Core.Option.{bind}
use balloon_suchai_flight_so.Prelude.{
  ℕ, zero, suc, ◌+◌, ◌-◌, ◌<◌, ◌≤◌, ◌^◌, ◌≡◌, refl, sym, ap, ap₂, ◌∙◌, List, [], ◌∷◌, Option, some,
  arith, length, All, ◌⊎◌, inl, inr, subst,
}
use balloon_suchai_flight_so.Prelude.Words.{int_max}
use balloon_suchai_flight_so.Prelude.Upto.{upto, upto-shift, length-upto, get_or-upto}
use balloon_suchai_flight_so.Commands.{Repo}
use balloon_suchai_flight_so.Status.{IsValid}
use balloon_suchai_flight_so.Payload.{PayloadId, Storage, Keeps, Memory, index_of}
use balloon_suchai_flight_so.Telemetry.{
  Frame, send_frames, send_tel_from_to, tm_type_payload, number_of, structs_of,
}
use balloon_suchai_flight_so.Telemetry.Frames.{all_samples, IsFilled}
use balloon_suchai_flight_so.Telemetry.Sending.{send_tel_sends}
use balloon_suchai_flight_so.Comms.{com_receive_tm}
use balloon_suchai_flight_so.Comms.Storing.{add_all, add_all-append, add_all-Grown}
use balloon_suchai_flight_so.Comms.Wire.{wire, value_or, values, values-append, receive-wire}

module _ {S D : Type 0} (storage : Storage S D) (p : PayloadId) (junk : D) where
  -- The frames as they come in, one after the other.
  unfoldable pub receive_all : List (Frame D) → Repo → Memory S → Option (Memory S)
  receive_all [] r m = some m
  receive_all (frame ∷ frames) r m =
      bind (com_receive_tm storage (wire junk p frame) r m) (λ (cmds, m'). receive_all frames r m')

  abbrev OfPayload : Frame D → Type 0
  OfPayload frame = frame.tm_type ≡ tm_type_payload + number_of p

  receive_all-add :
      (frames : List (Frame D)) (r : Repo) (m : Memory S)
      → All OfPayload frames
      → All (IsFilled (structs_of p)) frames
      → receive_all frames r m ≡ some (add_all storage p (values junk (all_samples frames)) m)
  unfolding receive_all bind add_all values
  receive_all-add [] r m t f = refl
  receive_all-add (frame ∷ frames) r m (t, ts) (f, fs) =
      let first = receive-wire storage p junk frame r m t f in
      let m_1 = add_all storage p (values junk frame.samples) m in
      rw first (
        receive_all-add frames r m_1 ts fs
        ∙ ap some (
            sym (
              ap (λ l. add_all storage p l m)
                (values-append junk frame.samples (all_samples frames))
              ∙ add_all-append storage p (values junk frame.samples)
                  (values junk (all_samples frames)) m)))

  send_frames-OfPayload :
      (m : Memory S) (des n s node i rounds : ℕ)
      → All OfPayload
          (send_frames storage m des p n s (tm_type_payload + number_of p) node i rounds)
  unfolding send_frames
  send_frames-OfPayload m des n s node i zero = tt
  send_frames-OfPayload m des n s node i (suc rounds) =
      (refl, send_frames-OfPayload m des n s node (i + 1) rounds)

  values-upto :
      (read : ℕ → Option D) (f : ℕ → D) (k n : ℕ)
      → ((i : ℕ) → k ≤ i → i < k + n → read i ≡ some (f i))
      → values junk (upto read k n) ≡ upto f k n
  unfolding values value_or
  values-upto read f k zero h = refl
  values-upto read f k (suc n) h =
      ap₂ ◌∷◌ (ap (value_or junk) (h k (omega arith) (omega arith)))
        (values-upto read f (k + 1) n (λ i l g. h i (omega arith) (omega arith)))

-- What one side sends with `send_tel_from_to`, the other side has once it has received the frames in
-- their order: for a range within the samples that the sender's index counts, below 2 ^ 30, each of
-- which the sender's storage reads; a receiver with a buffer of 171 slots, an index that stays an
-- `int`, and a storage that keeps what its ready places take, with the places from the index on, which
-- may be 0, ready for the samples. The receiver's index grows by the length of the range, the places
-- from its old index on hold the samples of the range in order, and every other place that can be
-- read is as before.
pub downlink_stores :
    {S T D : Type 0} (sender : Storage S D) (receiver : Storage T D)
    (Ready : ℕ → D → PayloadId → T → Type 0) (Place : ℕ → PayloadId → Type 0) (p : PayloadId)
    (junk : D) (f : ℕ → D) (from des node j : ℕ) (r : Repo) (m : Memory S) (g : Memory T)
    → from ≤ des
    → des ≤ index_of m.buff p
    → index_of m.buff p < 2 ^ 30
    → ((i : ℕ) → from ≤ i → i < des → sender.get_payload_data i p m.store ≡ some (f i))
    → Keeps receiver Ready Place
    → IsValid g.buff
    → index_of g.buff p + (des - from) ≤ int_max
    → ((k : ℕ) → k < des - from → Ready (index_of g.buff p + k) (f (from + k)) p g.store)
    → Place j p
    → (j < index_of g.buff p) ⊎ (index_of g.buff p + (des - from) ≤ j)
    → (g' : Memory T) × (receive_all receiver p junk (send_tel_from_to sender from des p node m) r g
        ≡ some g')
      × (index_of g'.buff p ≡ index_of g.buff p + (des - from))
      × (upto (λ k. receiver.get_payload_data (index_of g.buff p + k) p g'.store) 0 (des - from)
          ≡ upto (λ k. some (f (from + k))) 0 (des - from))
      × (receiver.get_payload_data j p g'.store ≡ receiver.get_payload_data j p g.store)
unfolding send_tel_from_to
downlink_stores sender receiver Ready Place p junk f from des node j r m g h1 h2 h3 reads keeps v
      fits ready place apart =
    let n = des - from in
    let i = index_of g.buff p in
    let (sent, filled) = send_tel_sends sender m from des p node h1 h2 h3 in
    let read = λ (i : ℕ). sender.get_payload_data i p m.store in
    let samples =
      ap (values junk) sent
      ∙ values-upto sender p junk read f from n (λ i l u. reads i l (omega arith)) in
    let long : length (upto f from n) ≡ n = length-upto f from n in
    let grown =
      add_all-Grown receiver Ready Place p (upto f from n) g keeps v (omega (arith, long)) (λ k e l.
        subst (λ d. Ready (i + k) d p g.store)
          (sym (get_or-upto f from n k e (omega (arith, l, long))))
          (ready k (omega (arith, l, long)))) in
    let behind : (j < i) ⊎ (i + length (upto f from n) ≤ j) = elim apart [
      | inl low ↦ inl low
      | inr high ↦ inr (omega (arith, high, long))
    ] in
    let stored = (add_all receiver p (upto f from n) g).store in
    (
      add_all receiver p (upto f from n) g,
      receive_all-add receiver p junk _ r g (send_frames-OfPayload sender p junk m des _ _ node 0 _)
            filled
          ∙ ap (λ l. some (add_all receiver p l g)) samples,
      omega (arith, grown.counted, long),
      upto-shift (λ k. receiver.get_payload_data (i + k) p stored) (λ k. some (f (from + k))) 0 0 n
          (λ k l.
            grown.added (0 + k) (f 0) (omega (arith, long, l))
            ∙ ap some (get_or-upto f from n (0 + k) (f 0) (omega (arith, l)))),
      grown.others j place behind,
    )
