-- ===== src/Drp.antt =====
-- The data repository's commands of src/system/cmdDRP.c over the status variables. A handler gives
-- its result and the variables it leaves. `sscanf` is the C library's: the list of the numbers that
-- it stores, whose length is its result; `now` is what `time(NULL)` gives, as an `int`. A NULL
-- `params` is `none`.
pub mod Laws
pub mod Flight
mod Tests
use balloon_suchai_flight_so.Prelude.{
  ℕ, zero, suc, ◌+◌, List, Option, none, some, ltb, ◌==◌, if◌then◌else◌, length, get_or,
}
use balloon_suchai_flight_so.Prelude.Words.{add_32, minus_one}
use balloon_suchai_flight_so.Prelude.Text.{Text}
use balloon_suchai_flight_so.Status.{Buff, fill_from, dat_set_system_var, dat_get_system_var}
use balloon_suchai_flight_so.Status.Vars.{dat_system_last_var, index}
use balloon_suchai_flight_so.Status.Vars.DatSystem.{
  dat_obc_hrs_alive, dat_obc_hrs_wo_reset, dat_dep_deployed, dat_rtc_date_time,
}
use balloon_suchai_flight_so.Payload.{dat_delete_memory_sections}

abbrev pub cmd_ok : ℕ
cmd_ok = 1

abbrev pub cmd_fail : ℕ
cmd_fail = 0

-- SCH_DRP_MAGIC
abbrev pub magic_number : ℕ
magic_number = 1010

-- One turn of the loop of `drp_test_system_vars`, with the result so far: the variable is written
-- with 85, read, and written with its first value.
unfoldable pub test_var : ℕ → ℕ × Buff → ℕ × Buff
test_var i (return_value, b) =
    let init_value = dat_get_system_var b i in
    let b' = dat_set_system_var b i 85 in
    let var = dat_get_system_var b' i in
    (if var == 85 then return_value else cmd_fail, dat_set_system_var b' i init_value)

-- The loop from variable `i`, with the number of turns left.
unfoldable pub test_vars : ℕ → ℕ → ℕ × Buff → ℕ × Buff
test_vars i zero state = state
test_vars i (suc rounds) state = test_vars (i + 1) rounds (test_var i state)

unfoldable pub drp_test_system_vars : Buff → ℕ × Buff
drp_test_system_vars b = test_vars 0 dat_system_last_var (cmd_ok, b)

module _ (sscanf : Text → Text → List ℕ) where
  unfoldable pub drp_execute_before_flight : ℕ → Text → Option Text → ℕ → Buff → ℕ × Buff
  drp_execute_before_flight now fmt none nparams b = (minus_one, b)
  drp_execute_before_flight now fmt (some params) nparams b =
      let args = sscanf params fmt in
      let reset = fill_from b 0 0 dat_system_last_var in
      let timed = dat_set_system_var reset (index dat_rtc_date_time) now in
      if nparams == length args
      then (if get_or args 0 0 == magic_number
          then (cmd_ok, (dat_delete_memory_sections timed).1)
          else (cmd_fail, b))
      else (cmd_fail, b)

  unfoldable pub drp_update_sys_var_idx : Text → Option Text → ℕ → Buff → ℕ × Buff
  drp_update_sys_var_idx fmt none nparams b = (cmd_fail, b)
  drp_update_sys_var_idx fmt (some params) nparams b =
      let args = sscanf params fmt in
      let var_index = get_or args 0 0 in
      if length args == nparams
      then (if ltb var_index dat_system_last_var
          then (cmd_ok, dat_set_system_var b var_index (get_or args 1 0))
          else (cmd_fail, b))
      else (cmd_fail, b)

  unfoldable pub drp_update_hours_alive : Text → Option Text → ℕ → Buff → ℕ × Buff
  drp_update_hours_alive fmt none nparams b = (cmd_fail, b)
  drp_update_hours_alive fmt (some params) nparams b =
      let args = sscanf params fmt in
      let value = get_or args 0 0 in
      let alive = add_32 (dat_get_system_var b (index dat_obc_hrs_alive)) value in
      let b' = dat_set_system_var b (index dat_obc_hrs_alive) alive in
      let without = add_32 (dat_get_system_var b' (index dat_obc_hrs_wo_reset)) value in
      if length args == nparams
      then (cmd_ok, dat_set_system_var b' (index dat_obc_hrs_wo_reset) without)
      else (cmd_fail, b)

  -- `params` is not compared with NULL here: what `sscanf` reads from NULL is a fault.
  unfoldable pub drp_set_deployed : Text → Option Text → ℕ → Buff → Option (ℕ × Buff)
  drp_set_deployed fmt none nparams b = none
  drp_set_deployed fmt (some params) nparams b =
      let args = sscanf params fmt in
      if length args == nparams
      then some (cmd_ok, dat_set_system_var b (index dat_dep_deployed) (get_or args 0 0))
      else some (minus_one, b)
