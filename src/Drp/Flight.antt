-- ===== src/Drp/Flight.antt =====
-- `drp_execute_before_flight` of src/system/cmdDRP.c.
use balloon_suchai_flight_so.Prelude.{
  ℕ, ◌<◌, ◌≡◌, ◌≢◌, refl, ◌∙◌, List, [], ◌∷◌, some, arith, true, length, get_or, ◌==◌,
  if◌then◌else◌, ◌⊎◌, inl, inr,
}
use balloon_suchai_flight_so.Prelude.Text.{Text}
use balloon_suchai_flight_so.Status.{
  Buff, IsValid, fill_from, dat_set_system_var, dat_get_system_var,
}
use balloon_suchai_flight_so.Status.Vars.{dat_system_last_var, index}
use balloon_suchai_flight_so.Status.Vars.DatSystem.{dat_rtc_date_time}
use balloon_suchai_flight_so.Status.Access.{get-set_system_var, dat_set_system_var-IsValid}
use balloon_suchai_flight_so.Status.Init.{get-fill_from, fill_from-IsValid}
use balloon_suchai_flight_so.Payload.{
  PayloadId, reset_indices, dat_delete_memory_sections, data_map, all_payloads,
}
use balloon_suchai_flight_so.Payload.Recent.{index_small}
use balloon_suchai_flight_so.Drp.{cmd_ok, cmd_fail, magic_number, drp_execute_before_flight}
use PayloadId.{
  temp_sensors, ads_sensors, eps_sensors, lang_sensors, gps_sensors, prs_sensors, dpl_sensors,
  fod_sensors,
}

not_clock : (p : PayloadId) → index ((data_map p).sys_index) ≢ index dat_rtc_date_time
not_clock temp_sensors = λ e. omega arith
not_clock ads_sensors = λ e. omega arith
not_clock eps_sensors = λ e. omega arith
not_clock lang_sensors = λ e. omega arith
not_clock gps_sensors = λ e. omega arith
not_clock prs_sensors = λ e. omega arith
not_clock dpl_sensors = λ e. omega arith
not_clock fod_sensors = λ e. omega arith

-- Resetting the payloads' indices leaves the clock, and each variable that is 0.
reset_indices-keeps :
    (ps : List PayloadId) (b : Buff) (j d : ℕ)
    → IsValid b
    → j < 57
    → dat_get_system_var b j ≡ d
    → (d ≡ 0) ⊎ (j ≡ index dat_rtc_date_time)
    → dat_get_system_var (reset_indices ps b) j ≡ d
unfolding reset_indices
reset_indices-keeps [] b j d valid hj e h = e
reset_indices-keeps (p ∷ ps) b j d valid hj e h =
    let k = index ((data_map p).sys_index) in
    reset_indices-keeps ps (dat_set_system_var b k 0) j d (dat_set_system_var-IsValid b k 0 valid)
      hj
      (get-set_system_var b k j 0 valid (index_small p) hj
        ∙ elim h [ inl z ↦ ground (arith, z, e) | inr c ↦ ground (arith, not_clock p, c, e) ])
      h

-- On a buffer of 171 slots, where `sscanf` reads as many numbers as the command has, with the magic
-- number first, `drp_execute_before_flight` gives CMD_OK and leaves every variable at 0 but the
-- clock, which holds the time that the system gives.
pub before_flight_resets :
    (sscanf : Text → Text → List ℕ) (now : ℕ) (fmt params : Text) (nparams : ℕ) (b : Buff) (j : ℕ)
    → IsValid b
    → length (sscanf params fmt) ≡ nparams
    → get_or (sscanf params fmt) 0 0 ≡ magic_number
    → j < dat_system_last_var
    → (b' : Buff) × (drp_execute_before_flight sscanf now fmt (some params) nparams b
        ≡ (cmd_ok, b'))
      × (dat_get_system_var b' j ≡ (if j == index dat_rtc_date_time then now else 0))
unfolding drp_execute_before_flight dat_delete_memory_sections
before_flight_resets sscanf now fmt params nparams b j valid count magic h =
    let reset = fill_from b 0 0 dat_system_last_var in
    let reset_valid = fill_from-IsValid b 0 0 dat_system_last_var valid in
    let timed = dat_set_system_var reset (index dat_rtc_date_time) now in
    let value = if j == index dat_rtc_date_time then now else 0 in
    let counted : (nparams == length (sscanf params fmt)) ≡ true = ground (arith, count) in
    let right : (get_or (sscanf params fmt) 0 0 == magic_number) ≡ true = ground (arith, magic) in
    let reads : dat_get_system_var timed j ≡ value =
      ground
        (arith, get-set_system_var reset 12 j now reset_valid, get-fill_from b 0 0 57 j valid) in
    (
      reset_indices all_payloads timed,
      rw (counted, right) refl,
      reset_indices-keeps all_payloads timed j value
          (dat_set_system_var-IsValid reset 12 now reset_valid) h reads (ground arith),
    )

-- With another number than the magic one, or where `sscanf` does not read as many numbers as the
-- command has, `drp_execute_before_flight` gives CMD_FAIL and changes nothing.
before_flight_refuses :
    (sscanf : Text → Text → List ℕ) (now : ℕ) (fmt params : Text) (nparams : ℕ) (b : Buff)
    → (length (sscanf params fmt) ≢ nparams) ⊎ (get_or (sscanf params fmt) 0 0 ≢ magic_number)
    → drp_execute_before_flight sscanf now fmt (some params) nparams b ≡ (cmd_fail, b)
unfolding drp_execute_before_flight
before_flight_refuses sscanf now fmt params nparams b h = ground arith
