-- ===== src/Telemetry/Window.antt =====
-- Telemetry of src/system/cmdTM.c sent in parts: `tm_send_from`, `tm_set_ack` and `tm_send_all`.
use balloon_suchai_flight_so.Prelude.{
  ℕ, ◌+◌, ◌-◌, ◌<◌, ◌≤◌, ◌^◌, ◌≡◌, ◌≢◌, refl, sym, ap, ap₂, ◌∙◌, List, [], ◌∷◌, ◌++◌, some, arith,
  false, get_or, length, min, ◌==◌,
}
use balloon_suchai_flight_so.Prelude.Text.{Text}
use balloon_suchai_flight_so.Status.{IsValid}
use balloon_suchai_flight_so.Status.Vars.{index}
use balloon_suchai_flight_so.Status.Access.{get-set_system_var}
use balloon_suchai_flight_so.Payload.{
  PayloadId, Storage, Memory, data_map, payload_of, index_of, ack_of,
}
use balloon_suchai_flight_so.Payload.Recent.{index_small}
use balloon_suchai_flight_so.Telemetry.{
  Frame, cmd_ok, send_tel_from_to, tm_send_from, tm_send_all, tm_set_ack,
}
use balloon_suchai_flight_so.Telemetry.Acks.{moved, ack_small, acked, set_ack_run}
use balloon_suchai_flight_so.Prelude.Upto.{upto, upto-append}
use balloon_suchai_flight_so.Telemetry.Frames.{all_samples}
use balloon_suchai_flight_so.Telemetry.Sending.{send_tel_sends}
use PayloadId.{
  temp_sensors, ads_sensors, eps_sensors, lang_sensors, gps_sensors, prs_sensors, dpl_sensors,
  fod_sensors,
}

apart : (p : PayloadId) → (index ((data_map p).sys_ack) == index ((data_map p).sys_index)) ≡ false
apart temp_sensors = refl
apart ads_sensors = refl
apart eps_sensors = refl
apart lang_sensors = refl
apart gps_sensors = refl
apart prs_sensors = refl
apart dpl_sensors = refl
apart fod_sensors = refl

module _ {S D : Type 0} (storage : Storage S D) (sscanf : Text → Text → List ℕ) where
  send_from_range :
      (fmt params : Text) (a node k : ℕ) (p : PayloadId) (m : Memory S)
      → sscanf params fmt ≡ a ∷ node ∷ k ∷ []
      → payload_of a ≡ some p
      → k ≢ 0
      → ack_of m.buff p + k < 2 ^ 30
      → index_of m.buff p < 2 ^ 30
      → tm_send_from storage sscanf fmt (some params) 3 m ≡ (
        cmd_ok,
        send_tel_from_to storage
            (ack_of m.buff p)
            (min (ack_of m.buff p + k) (index_of m.buff p))
            p
            node
            m,
      )
  unfolding tm_send_from
  send_from_range fmt params a node k p m args which pos h hi =
      let positive : (k == 0) ≡ false = ground (arith, pos) in
      let count : length (sscanf params fmt) ≡ 3 = ap length args in
      let at_0 : get_or (sscanf params fmt) 0 0 ≡ a = ap (λ l. get_or l 0 0) args in
      let at_1 : get_or (sscanf params fmt) 1 0 ≡ node = ap (λ l. get_or l 1 0) args in
      let at_2 : get_or (sscanf params fmt) 2 0 ≡ k = ap (λ l. get_or l 2 0) args in
      rw
        (
          count,
          at_0,
          which,
          at_2,
          positive,
          moved (ack_of m.buff p) k (index_of m.buff p) (omega arith) (omega arith),
          at_1,
        )
        refl

  send_all_range :
      (fmt params : Text) (a node : ℕ) (p : PayloadId) (m : Memory S)
      → sscanf params fmt ≡ a ∷ node ∷ []
      → payload_of a ≡ some p
      → tm_send_all storage sscanf fmt (some params) 2 m
        ≡ (cmd_ok, send_tel_from_to storage (ack_of m.buff p) (index_of m.buff p) p node m)
  unfolding tm_send_all
  send_all_range fmt params a node p m args which =
      let count : length (sscanf params fmt) ≡ 2 = ap length args in
      let at_0 : get_or (sscanf params fmt) 0 0 ≡ a = ap (λ l. get_or l 0 0) args in
      let at_1 : get_or (sscanf params fmt) 1 0 ≡ node = ap (λ l. get_or l 1 0) args in
      rw (count, at_0, which, at_1) refl

set_ack_range :
    {S : Type 0} (sscanf : Text → Text → List ℕ) (fmt params : Text) (a k : ℕ) (p : PayloadId)
    (m : Memory S)
    → sscanf params fmt ≡ a ∷ k ∷ []
    → payload_of a ≡ some p
    → k ≢ 0
    → ack_of m.buff p + k < 2 ^ 30
    → index_of m.buff p < 2 ^ 30
    → tm_set_ack sscanf fmt (some params) 2 m ≡ (cmd_ok, acked k p m)
set_ack_range sscanf fmt params a k p m args which pos h hi =
    let at_0 : get_or (sscanf params fmt) 0 0 ≡ a = ap (λ l. get_or l 0 0) args in
    let at_1 : get_or (sscanf params fmt) 1 0 ≡ k = ap (λ l. get_or l 1 0) args in
    set_ack_run sscanf fmt params 2 p m (ap length args) (ap payload_of at_0 ∙ which)
      (λ e. pos (sym at_1 ∙ e)) (omega (arith, at_1)) (omega arith)
    ∙ ap (λ n. (cmd_ok, acked n p m)) at_1

-- On a buffer of 171 slots, where the acknowledged index is not past the payload's index, and
-- neither the latter nor the former with `k` added reaches 2 ^ 30: when `k` samples, not 0, are
-- sent from the acknowledged index on, then `k` are acknowledged, and then all the rest is sent,
-- the frames together carry what the storage holds from the acknowledged index up to the payload's
-- index, each sample once, in order.
pub no_sample_lost :
    {S D : Type 0} (storage : Storage S D) (sscanf : Text → Text → List ℕ)
    (f_1 q_1 f_2 q_2 f_3 q_3 : Text) (a node k : ℕ) (p : PayloadId) (m : Memory S)
    → sscanf q_1 f_1 ≡ a ∷ node ∷ k ∷ []
    → sscanf q_2 f_2 ≡ a ∷ k ∷ []
    → sscanf q_3 f_3 ≡ a ∷ node ∷ []
    → payload_of a ≡ some p
    → k ≢ 0
    → ack_of m.buff p ≤ index_of m.buff p
    → index_of m.buff p < 2 ^ 30
    → ack_of m.buff p + k < 2 ^ 30
    → IsValid m.buff
    → (sent : List (Frame D)) × (rest : List (Frame D)) × (m' : Memory S) × (tm_send_from storage
          sscanf f_1
          (some q_1)
          3
          m
        ≡ (cmd_ok, sent))
      × (tm_set_ack sscanf f_2 (some q_2) 2 m ≡ (cmd_ok, m'))
      × (tm_send_all storage sscanf f_3 (some q_3) 2 m' ≡ (cmd_ok, rest))
      × (all_samples sent ++ all_samples rest
          ≡ upto
              (λ i. storage.get_payload_data i p m.store)
              (ack_of m.buff p)
              (index_of m.buff p - ack_of m.buff p))
unfolding acked
no_sample_lost storage sscanf f_1 q_1 f_2 q_2 f_3 q_3 a node k p m e_1 e_2 e_3 which pos h hi hk
      valid =
    let i = index_of m.buff p in
    let ack = ack_of m.buff p in
    let to = min (ack + k) i in
    let m' = acked k p m in
    let ack' : ack_of m'.buff p ≡ to =
      get-set_system_var m.buff (index ((data_map p).sys_ack)) (index ((data_map p).sys_ack)) to
        valid (ack_small p) (ack_small p)
      ∙ ground arith in
    let index' : index_of m'.buff p ≡ i =
      get-set_system_var m.buff (index ((data_map p).sys_ack)) (index ((data_map p).sys_index)) to
        valid (ack_small p) (index_small p)
      ∙ rw (apart p) refl in
    let (first, _) =
      send_tel_sends storage m ack to p node (omega arith) (omega arith) (omega arith) in
    let (second, _) =
      send_tel_sends storage m' (ack_of m'.buff p) (index_of m'.buff p) p node
        (omega (arith, ack', index')) (omega arith) (omega (arith, index')) in
    let get = λ (n : ℕ). storage.get_payload_data n p m.store in
    (
      send_tel_from_to storage ack to p node m,
      send_tel_from_to storage (ack_of m'.buff p) (index_of m'.buff p) p node m',
      m',
      send_from_range storage sscanf f_1 q_1 a node k p m e_1 which pos hk hi,
      set_ack_range sscanf f_2 q_2 a k p m e_2 which pos hk hi,
      send_all_range storage sscanf f_3 q_3 a node p m' e_3 which,
      ap₂ ◌++◌ first second
          ∙ ap₂ (λ x y. upto get ack (to - ack) ++ upto get x (y - x)) ack' index'
          ∙ ap (λ x. upto get ack (to - ack) ++ upto get x (i - to)) (omega arith)
          ∙ upto-append get ack (to - ack) (i - to) (i - ack) (omega arith),
    )
