-- ===== src/Telemetry.antt =====
-- The telemetry commands of src/system/cmdTM.c. A handler gives its result and the frames that it
-- hands to `com_send_data`, in order; only `tm_set_ack` changes the variables. `sscanf` is the C
-- library's: the list of the numbers that it stores, whose length is its result. A NULL `params`
-- is `none`.

pub mod Acks
pub mod Frames
pub mod Sending
pub mod Window
mod Tests
use balloon_suchai_flight_so.Prelude.{
  ℕ, zero, suc, ◌+◌, ◌-◌, ◌*◌, ◌/◌, ◌%◌, Bool, not, ◌||◌, List, [], ◌∷◌, Option, none, some, ltb,
  ◌==◌, ◌^◌, if◌then◌else◌, length, get_or,
}
use balloon_suchai_flight_so.Prelude.Words.{u32_mod, add_32, sub_32, slt, sle, int_min, minus_one}
use balloon_suchai_flight_so.Prelude.Text.{Text}
use balloon_suchai_flight_so.Status.{dat_set_system_var}
use balloon_suchai_flight_so.Status.Vars.{index}
use balloon_suchai_flight_so.Payload.{
  PayloadId, Storage, Memory, data_map, payload_of, index_of, ack_of, dat_get_recent_payload_sample,
}

abbrev pub cmd_ok : ℕ
cmd_ok = 1

abbrev pub cmd_fail : ℕ
cmd_fail = 0

-- COM_FRAME_MAX_LEN
abbrev pub frame_max_len : ℕ
frame_max_len = 192

-- TM_TYPE_PAYLOAD
abbrev pub tm_type_payload : ℕ
tm_type_payload = 10

-- A frame of `com_data_t`; of its data, the samples: `none` where the read failed and the frame
-- carries what the stack held.
pub record Frame (D : Type 0) : Type 0 where
  pub node : ℕ
  pub nframe : ℕ
  pub tm_type : ℕ
  pub ndata : ℕ
  pub samples : List (Option D)

-- `n / d` and `n % d != 0` on `int`, by a positive `d`; the quotient is rounded towards zero.
abbrev pub quotient : ℕ → ℕ → ℕ
quotient n d = if ltb n int_min then n / d else (u32_mod - (u32_mod - n) / d) % u32_mod

abbrev pub has_remainder : ℕ → ℕ → Bool
has_remainder n d = let r = (if ltb n int_min then n else u32_mod - n) % d in not (r == 0)

module _ {S D : Type 0} (storage : Storage S D) (m : Memory S) (des : ℕ) (payload : PayloadId) where
  -- The inner loop from `j`, with `rounds` = structs_per_frame - j: `ndata` and the samples.
  unfoldable pub fill_frame : ℕ → ℕ → ℕ → ℕ → ℕ → ℕ × List (Option D)
  fill_frame n_samples first structs_per_frame j zero = (structs_per_frame, [])
  fill_frame n_samples first structs_per_frame j (suc rounds) =
      let rest = fill_frame n_samples first structs_per_frame (j + 1) rounds in
      let delay =
        sub_32 (add_32 n_samples (sub_32 (index_of m.buff payload) des)) (first + j + 1) in
      if sle n_samples (first + j)
      then (j, [])
      else (rest.0, dat_get_recent_payload_sample storage payload delay m ∷ rest.1)

  -- The loop over the frames from `i`.
  unfoldable pub send_frames : ℕ → ℕ → ℕ → ℕ → ℕ → ℕ → List (Frame D)
  send_frames n_samples structs_per_frame type dest_node i zero = []
  send_frames n_samples structs_per_frame type dest_node i (suc rounds) =
      let filled =
        fill_frame n_samples (i * structs_per_frame) structs_per_frame 0 structs_per_frame in
      record {
        node = dest_node % 2 ^ 8;
        nframe = i % 2 ^ 16;
        tm_type = type;
        ndata = filled.0;
        samples = filled.1;
      }
      ∷ send_frames n_samples structs_per_frame type dest_node (i + 1) rounds

unfoldable pub number_of : PayloadId → ℕ
number_of PayloadId.temp_sensors = 0
number_of PayloadId.ads_sensors = 1
number_of PayloadId.eps_sensors = 2
number_of PayloadId.lang_sensors = 3
number_of PayloadId.gps_sensors = 4
number_of PayloadId.prs_sensors = 5
number_of PayloadId.dpl_sensors = 6
number_of PayloadId.fod_sensors = 7

abbrev pub structs_of : PayloadId → ℕ
structs_of payload = frame_max_len / (data_map payload).size

unfoldable pub frame_count : ℕ → ℕ → ℕ
frame_count n_samples structs_per_frame =
    let whole = quotient n_samples structs_per_frame in
    if has_remainder n_samples structs_per_frame then add_32 whole 1 else whole

module _ {S D : Type 0} (storage : Storage S D) where
  unfoldable pub send_tel_from_to : ℕ → ℕ → PayloadId → ℕ → Memory S → List (Frame D)
  send_tel_from_to from des payload dest_node m =
      let n_samples = sub_32 des from in
      let n_frames = frame_count n_samples (structs_of payload) in
      send_frames storage m des payload n_samples (structs_of payload)
        (tm_type_payload + number_of payload) dest_node 0 (if slt 0 n_frames then n_frames else 0)

  module _ (sscanf : Text → Text → List ℕ) where
    unfoldable pub tm_send_last : Text → Option Text → ℕ → Memory S → ℕ × List (Frame D)
    tm_send_last fmt none nparams m = (minus_one, [])
    tm_send_last fmt (some params) nparams m =
        let args = sscanf params fmt in
        if length args == nparams
        then elim (payload_of (get_or args 0 0)) [
          | none ↦ (cmd_fail, [])
          | some payload ↦
              let index_pay = index_of m.buff payload in
              let structs =
                if slt index_pay (structs_of payload) then index_pay else structs_of payload in
              if slt index_pay 1 then (cmd_fail, []) else (
                cmd_ok,
                send_tel_from_to (sub_32 index_pay structs) index_pay payload (get_or args 1 0) m,
              )
        ]
        else (cmd_fail, [])

    unfoldable pub tm_send_all : Text → Option Text → ℕ → Memory S → ℕ × List (Frame D)
    tm_send_all fmt none nparams m = (minus_one, [])
    tm_send_all fmt (some params) nparams m =
        let args = sscanf params fmt in
        if length args == nparams
        then elim (payload_of (get_or args 0 0)) [
          | none ↦ (cmd_fail, [])
          | some payload ↦ (
            cmd_ok,
            send_tel_from_to (ack_of m.buff payload) (index_of m.buff payload) payload
                (get_or args 1 0) m,
          )
        ]
        else (minus_one, [])

    unfoldable pub tm_send_from : Text → Option Text → ℕ → Memory S → ℕ × List (Frame D)
    tm_send_from fmt none nparams m = (minus_one, [])
    tm_send_from fmt (some params) nparams m =
        let args = sscanf params fmt in
        let samples = get_or args 2 0 in
        if length args == nparams
        then elim (payload_of (get_or args 0 0)) [
          | none ↦ (cmd_fail, [])
          | some payload ↦
              let index_pay = index_of m.buff payload in
              let index_ack = ack_of m.buff payload in
              let asked = add_32 index_ack samples in
              let des = if slt index_pay asked then index_pay else asked in
              if samples == 0
              then (cmd_fail, [])
              else (cmd_ok, send_tel_from_to index_ack des payload (get_or args 1 0) m)
        ]
        else (minus_one, [])

module _ {S : Type 0} (sscanf : Text → Text → List ℕ) where
  unfoldable pub tm_set_ack : Text → Option Text → ℕ → Memory S → ℕ × Memory S
  tm_set_ack fmt none nparams m = (minus_one, m)
  tm_set_ack fmt (some params) nparams m =
      let args = sscanf params fmt in
      let k_samples = get_or args 1 0 in
      if length args == nparams
      then elim (payload_of (get_or args 0 0)) [
        | none ↦ (cmd_fail, m)
        | some payload ↦
            let ack_pay = ack_of m.buff payload in
            let index_pay = index_of m.buff payload in
            let moved = add_32 ack_pay k_samples in
            let ack = if slt index_pay moved then index_pay else moved in
            if k_samples == 0
            then (cmd_fail, m)
            else if (ack_pay == minus_one) || (index_pay == minus_one)
            then (cmd_fail, m)
            else (
              cmd_ok,
              record m {
                buff = dat_set_system_var m.buff (index ((data_map payload).sys_ack)) ack;
              },
            )
      ]
      else (minus_one, m)
