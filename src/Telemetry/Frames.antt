-- ===== src/Telemetry/Frames.antt =====
-- The frames that `send_tel_from_to` of src/system/cmdTM.c sends: its two loops.
use balloon_suchai_flight_so.Prelude.{
  ℕ, zero, suc, ◌+◌, ◌-◌, ◌*◌, ◌<◌, ◌≤◌, ◌^◌, ◌≡◌, refl, sym, ap, ap₂, ◌∙◌, ◌⊎◌, inl, inr, true,
  false, List, [], ◌∷◌, ◌++◌, Option, arith, length, leb, min, All, Bool-cases,
}
use native.Mathlib.Nat.{suc-mul, zero-mul}
use balloon_suchai_flight_so.Prelude.Upto.{upto, length-upto, upto-append}
use balloon_suchai_flight_so.Prelude.Words.{add_32, sub_32, sle}
use balloon_suchai_flight_so.Payload.{
  PayloadId, Storage, Memory, index_of, dat_get_recent_payload_sample,
}
use balloon_suchai_flight_so.Telemetry.{Frame, fill_frame, send_frames}

-- The same, where the first part is not as long as the step between the two, and nothing follows.
upto-gap :
    {A : Type 0} (f : ℕ → A) (k a step b n : ℕ)
    → a + b ≡ n
    → (a ≡ step) ⊎ (b ≡ 0)
    → upto f k a ++ upto f (k + step) b ≡ upto f k n
upto-gap f k a step b n e h = elim h [
  | inl same ↦ ap (λ j. upto f k a ++ upto f (k + j) b) (sym same) ∙ upto-append f k a b n e
  | inr none_left ↦
      ap (λ c. upto f k a ++ upto f (k + step) c) none_left
      ∙ ap (λ c. upto f k a ++ upto f (k + a) c) (sym none_left)
      ∙ upto-append f k a b n e
]

tests :
    (n x : ℕ)
    → n < 2 ^ 31
    → x < 2 ^ 31
    → ((sle n x ≡ true) × (n ≤ x)) ⊎ ((sle n x ≡ false) × (x < n))
tests n x hn hx = elim (Bool-cases (sle n x)) [
  | inl e ↦ inl (e, ground (arith, e))
  | inr e ↦ inr (e, ground (arith, e))
]

le_total : (a b : ℕ) → (a ≤ b) ⊎ (b ≤ a)
le_total a b = elim (Bool-cases (leb a b)) [
  | inl e ↦ inl (ground (arith, e))
  | inr e ↦ inr (ground (arith, e))
]

-- The samples of all frames, in order.
abbrev pub all_samples : {D : Type 0} → List (Frame D) → List (Option D)
all_samples [] = []
all_samples (f ∷ fs) = f.samples ++ all_samples fs

-- A frame says how many samples it carries, and they are not more than fit.
abbrev pub IsFilled : {D : Type 0} → ℕ → Frame D → Type 0
IsFilled structs_per_frame f = (f.ndata ≡ length f.samples) × (f.ndata ≤ structs_per_frame)

module _ {S D : Type 0} (storage : Storage S D) (m : Memory S) (des : ℕ) (payload : PayloadId)
    (n : ℕ) where
  -- The read of sample `k` of the `n`.
  abbrev pub read : ℕ → Option D
  read k =
      dat_get_recent_payload_sample storage payload
        (sub_32 (add_32 n (sub_32 (index_of m.buff payload) des)) (k + 1)) m

  fill_frame_lem :
      (first s j rounds c : ℕ)
      → n < 2 ^ 30
      → first + s < 2 ^ 31
      → j + rounds ≡ s
      → c ≡ min rounds (n - (first + j))
      → fill_frame storage m des payload n first s j rounds ≡ (j + c, upto read (first + j) c)
  unfolding fill_frame
  fill_frame_lem first s j zero zero hn hf e ec = ap (λ x. (x, [])) (omega (arith, e))
  fill_frame_lem first s j zero (suc c) hn hf e ec = absurd (omega (arith, ec))
  fill_frame_lem first s j (suc rounds) zero hn hf e ec =
      elim (tests n (first + j) (omega arith) (omega arith)) [
        | inl (t, le) ↦ rw t (ap (λ x. (x, [])) (omega arith))
        | inr (t, lt) ↦ absurd (omega (arith, ec))
      ]
  fill_frame_lem first s j (suc rounds) (suc c) hn hf e ec =
      elim (tests n (first + j) (omega arith) (omega arith)) [
        | inl (t, le) ↦ absurd (omega (arith, ec))
        | inr (t, lt) ↦ rw t (
            ap (λ r. (r.0, read (first + j) ∷ r.1))
              (fill_frame_lem first s (j + 1) rounds c hn hf (omega (arith, e)) (omega (arith, ec)))
            ∙ ap₂ (λ x y. (x, read (first + j) ∷ upto read y c)) (omega arith) (omega arith))
      ]

  -- The frames from `i` on carry the reads from `first` on.
  pub send_frames_lem :
      (s type node i rounds first size c : ℕ)
      → n < 2 ^ 30
      → s < 2 ^ 10
      → i * s ≡ first
      → rounds * s ≡ size
      → first + size ≤ n + s
      → c ≡ min size (n - first)
      → (all_samples (send_frames storage m des payload n s type node i rounds) ≡ upto read first c)
        × All (IsFilled s) (send_frames storage m des payload n s type node i rounds)
  unfolding send_frames
  send_frames_lem s type node i zero first size c hn hs ei er fits ec =
      let nothing : 0 ≡ c = omega (arith, ec, er, zero-mul s) in (ap (upto read first) nothing, tt)
  send_frames_lem s type node i (suc rounds) first size c hn hs ei er fits ec =
      let c_1 = min s (n - first) in
      let c_2 = min (rounds * s) (n - (first + s)) in
      let whole : size ≡ s + rounds * s = omega (arith, er, suc-mul rounds s) in
      let one_more : i + 1 ≡ suc i = omega arith in
      let next : (i + 1) * s ≡ first + s =
        omega (arith, ap (λ x. x * s) one_more, suc-mul i s, ei) in
      let gap : (c_1 ≡ s) ⊎ (c_2 ≡ 0) = elim (le_total s (n - first)) [
        | inl le ↦ inl (omega arith)
        | inr le ↦ inr (omega arith)
      ] in
      let filled =
        fill_frame_lem (i * s) s 0 s c_1 hn (omega (arith, ei, whole)) (omega arith)
          (omega (arith, ei)) in
      let (later, filled_later) =
        send_frames_lem s type node (i + 1) rounds (first + s) (rounds * s) c_2 hn hs next refl
          (omega (arith, whole)) refl in
      (
        ap₂ ◌++◌ (ap (λ r. r.1) filled ∙ ap (λ k. upto read k c_1) (omega (arith, ei))) later
            ∙ upto-gap read first c_1 s c_2 c (omega (arith, whole, ec)) gap,
        (
          (
            omega (
              arith,
              ap (λ r. r.0) filled,
              length-upto read (i * s + 0) c_1,
              ap (λ r. length r.1) filled,
            ),
            omega (arith, ap (λ r. r.0) filled),
          ),
          filled_later,
        ),
      )
