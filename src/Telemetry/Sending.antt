-- ===== src/Telemetry/Sending.antt =====
-- What `send_tel_from_to` of src/system/cmdTM.c sends: the samples of a range, each once, in order.
use balloon_suchai_flight_so.Prelude.{
  ℕ, ◌+◌, ◌-◌, ◌*◌, ◌<◌, ◌≤◌, ◌^◌, ◌≡◌, refl, ap, ◌∙◌, arith, All, if◌then◌else◌,
}
use native.Mathlib.Nat.{zero-mul}
use balloon_suchai_flight_so.Prelude.Words.{add_32, sub_32, slt}
use balloon_suchai_flight_so.Payload.{PayloadId, Storage, Memory, index_of}
use balloon_suchai_flight_so.Payload.Recent.{recent_at}
use balloon_suchai_flight_so.Telemetry.{
  frame_count, structs_of, tm_type_payload, number_of, send_tel_from_to,
}
use balloon_suchai_flight_so.Prelude.Upto.{upto, upto-shift}
use balloon_suchai_flight_so.Telemetry.Frames.{all_samples, IsFilled, read, send_frames_lem}
use PayloadId.{
  temp_sensors, ads_sensors, eps_sensors, lang_sensors, gps_sensors, prs_sensors, dpl_sensors,
  fod_sensors,
}

-- The number of turns of the loop over the frames.
abbrev turns : ℕ → ℕ → ℕ
turns n s = if slt 0 (frame_count n s) then frame_count n s else 0

-- The frames hold the samples, and the last one is not empty.
abbrev Fits : PayloadId → ℕ → Type 0
Fits p n =
    (n ≤ turns n (structs_of p) * structs_of p)
    × (turns n (structs_of p) * structs_of p ≤ n + structs_of p)
    × (structs_of p < 2 ^ 10)

turns_fit : (p : PayloadId) (n : ℕ) → n < 2 ^ 30 → Fits p n
unfolding frame_count
turns_fit temp_sensors n h = (ground arith, ground arith, omega arith)
turns_fit ads_sensors n h = (ground arith, ground arith, omega arith)
turns_fit eps_sensors n h = (ground arith, ground arith, omega arith)
turns_fit lang_sensors n h = (ground arith, ground arith, omega arith)
turns_fit gps_sensors n h = (ground arith, ground arith, omega arith)
turns_fit prs_sensors n h = (ground arith, ground arith, omega arith)
turns_fit dpl_sensors n h = (ground arith, ground arith, omega arith)
turns_fit fod_sensors n h = (ground arith, ground arith, omega arith)

delay_of :
    (from des i k : ℕ)
    → from ≤ des
    → des ≤ i
    → i < 2 ^ 30
    → k < des - from
    → (sub_32 (add_32 (des - from) (sub_32 i des)) (k + 1) < i)
      × (i - 1 - sub_32 (add_32 (des - from) (sub_32 i des)) (k + 1) ≡ from + k)
delay_of from des i k h1 h2 h3 h4 = (ground arith, ground arith)

read_at :
    {S D : Type 0} (storage : Storage S D) (m : Memory S) (from des : ℕ) (p : PayloadId) (k : ℕ)
    → from ≤ des
    → des ≤ index_of m.buff p
    → index_of m.buff p < 2 ^ 30
    → k < des - from
    → read storage m des p (des - from) (0 + k) ≡ storage.get_payload_data (from + k) p m.store
read_at storage m from des p k h1 h2 h3 l =
    let i = index_of m.buff p in
    let (near, place) = delay_of from des i (0 + k) h1 h2 h3 (omega arith) in
    let at : from + (0 + k) ≡ from + k = omega arith in
    recent_at storage p (sub_32 (add_32 (des - from) (sub_32 i des)) (0 + k + 1)) m near
      (omega arith)
    ∙ ap (λ x. storage.get_payload_data x p m.store) (place ∙ at)

-- For a range within the samples that the index counts, below 2 ^ 30, the frames carry what the
-- storage holds at the places from `from` up to `des`, each once and in order, and each frame says
-- how many samples it carries, which are not more than fit in it.
pub send_tel_sends :
    {S D : Type 0} (storage : Storage S D) (m : Memory S) (from des : ℕ) (p : PayloadId)
    (dest_node : ℕ)
    → from ≤ des
    → des ≤ index_of m.buff p
    → index_of m.buff p < 2 ^ 30
    → (all_samples (send_tel_from_to storage from des p dest_node m)
        ≡ upto (λ i. storage.get_payload_data i p m.store) from (des - from))
      × All (IsFilled (structs_of p)) (send_tel_from_to storage from des p dest_node m)
unfolding send_tel_from_to
send_tel_sends storage m from des p dest_node h1 h2 h3 =
    let n = des - from in
    let s = structs_of p in
    let count : sub_32 des from ≡ n = ground arith in
    let (enough, tight, small) = turns_fit p n (omega arith) in
    let (sent, filled) =
      send_frames_lem storage m des p n s (tm_type_payload + number_of p) dest_node 0 (turns n s) 0
        (turns n s * s) n (omega arith) small (zero-mul s) refl (omega (arith, tight))
        (omega (arith, enough)) in
    let reads =
      upto-shift (read storage m des p n) (λ i. storage.get_payload_data i p m.store) 0 from n
        (λ k l. read_at storage m from des p k h1 h2 h3 l) in
    rw count (sent ∙ reads, filled)
