-- ===== src/Telemetry/Acks.antt =====
-- The acknowledgement of telemetry in src/system/cmdTM.c, `tm_set_ack`.
use balloon_suchai_flight_so.Prelude.{
  ℕ, ◌+◌, ◌<◌, ◌≤◌, ◌≡◌, ◌≢◌, refl, List, some, arith, true, false, length, get_or, if◌then◌else◌,
  ◌==◌, min,
}
use balloon_suchai_flight_so.Prelude.Words.{add_32, slt, int_max, minus_one}
use balloon_suchai_flight_so.Prelude.Text.{Text}
use balloon_suchai_flight_so.Status.{IsValid, dat_set_system_var, dat_get_system_var}
use balloon_suchai_flight_so.Status.Vars.{index}
use balloon_suchai_flight_so.Status.Access.{get-set_system_var}
use balloon_suchai_flight_so.Payload.{PayloadId, Memory, data_map, payload_of, index_of, ack_of}
use balloon_suchai_flight_so.Telemetry.{cmd_ok, tm_set_ack}
use PayloadId.{
  temp_sensors, ads_sensors, eps_sensors, lang_sensors, gps_sensors, prs_sensors, dpl_sensors,
  fod_sensors,
}

pub ack_small : (p : PayloadId) → index ((data_map p).sys_ack) < 57
ack_small temp_sensors = omega arith
ack_small ads_sensors = omega arith
ack_small eps_sensors = omega arith
ack_small lang_sensors = omega arith
ack_small gps_sensors = omega arith
ack_small prs_sensors = omega arith
ack_small dpl_sensors = omega arith
ack_small fod_sensors = omega arith

pub moved :
    (ack k i : ℕ)
    → ack + k ≤ int_max
    → i ≤ int_max
    → (if slt i (add_32 ack k) then i else add_32 ack k) ≡ min (ack + k) i
moved ack k i h small = ground arith

-- What `tm_set_ack` leaves.
unfoldable pub acked : {S : Type 0} → ℕ → PayloadId → Memory S → Memory S
acked k p m = record m {
  buff =
      dat_set_system_var m.buff (index ((data_map p).sys_ack))
        (min (ack_of m.buff p + k) (index_of m.buff p));
}

pub set_ack_run :
    {S : Type 0} (sscanf : Text → Text → List ℕ) (fmt params : Text) (nparams : ℕ) (p : PayloadId)
    (m : Memory S)
    → length (sscanf params fmt) ≡ nparams
    → payload_of (get_or (sscanf params fmt) 0 0) ≡ some p
    → get_or (sscanf params fmt) 1 0 ≢ 0
    → ack_of m.buff p + get_or (sscanf params fmt) 1 0 ≤ int_max
    → index_of m.buff p ≤ int_max
    → tm_set_ack sscanf fmt (some params) nparams m
      ≡ (cmd_ok, acked (get_or (sscanf params fmt) 1 0) p m)
unfolding tm_set_ack acked
set_ack_run sscanf fmt params nparams p m count which some_k small small_i =
    let k = get_or (sscanf params fmt) 1 0 in
    let counted : (length (sscanf params fmt) == nparams) ≡ true = ground (arith, count) in
    let positive : (k == 0) ≡ false = ground (arith, some_k) in
    let known : (ack_of m.buff p == minus_one) ≡ false = ground (arith, small) in
    let known_i : (index_of m.buff p == minus_one) ≡ false = ground (arith, small_i) in
    rw
      (
        counted,
        which,
        positive,
        known,
        known_i,
        moved (ack_of m.buff p) k (index_of m.buff p) small small_i,
      )
      refl

-- On a buffer of 171 slots, where `sscanf` reads as many numbers as the command has, a payload
-- first and then a number of samples that is not 0, `tm_set_ack` moves the payload's acknowledged
-- index on by that number, but not past its index, and changes no other variable, where the
-- payload's index is not negative and the sum is not above the largest `int`.
set_ack_moves :
    {S : Type 0} (sscanf : Text → Text → List ℕ) (fmt params : Text) (nparams : ℕ) (p : PayloadId)
    (m : Memory S) (j : ℕ)
    → length (sscanf params fmt) ≡ nparams
    → payload_of (get_or (sscanf params fmt) 0 0) ≡ some p
    → get_or (sscanf params fmt) 1 0 ≢ 0
    → ack_of m.buff p + get_or (sscanf params fmt) 1 0 ≤ int_max
    → index_of m.buff p ≤ int_max
    → IsValid m.buff
    → j < 57
    → (m' : Memory S) × (tm_set_ack sscanf fmt (some params) nparams m ≡ (cmd_ok, m'))
      × (dat_get_system_var m'.buff j ≡ (
          if index ((data_map p).sys_ack) == j
          then min (ack_of m.buff p + get_or (sscanf params fmt) 1 0) (index_of m.buff p)
          else dat_get_system_var m.buff j))
unfolding acked
set_ack_moves sscanf fmt params nparams p m j count which some_k small small_i valid hj = (
  acked (get_or (sscanf params fmt) 1 0) p m,
  set_ack_run sscanf fmt params nparams p m count which some_k small small_i,
  get-set_system_var m.buff (index ((data_map p).sys_ack)) j
      (min (ack_of m.buff p + get_or (sscanf params fmt) 1 0) (index_of m.buff p)) valid
      (ack_small p) hj,
)
