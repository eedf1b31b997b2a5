-- ===== src/Scheduler.antt =====
-- The flight plan's task, src/system/taskFlightPlan.c, and its commands, src/system/cmdFP.c, over
-- the table of FlightPlan.antt. The clock is an input; `sscanf` and `mktime` are the C library's
-- and are parameters. A NULL `params` is `none`, which `sscanf` faults on. Log lines are left out.
mod Runs
mod Scheduled
mod Tests
use mathlib.Core.Option.{bind}
use balloon_suchai_flight_so.Prelude.{
  ℕ, zero, suc, Bool, List, [], ◌∷◌, Option, none, some, ◌==◌, if◌then◌else◌,
}
use balloon_suchai_flight_so.Prelude.Words.{sub_32, slt}
use balloon_suchai_flight_so.Prelude.Text.{Text}
use balloon_suchai_flight_so.Commands.{Cmd, Repo, cmd_get_str}
use balloon_suchai_flight_so.Commands.Params.{cmd_add_params_str, fix_fmt}
use balloon_suchai_flight_so.Status.{Buff, dat_set_system_var}
use balloon_suchai_flight_so.Status.Vars.{index}
use balloon_suchai_flight_so.Status.Vars.DatSystem.{dat_fpl_last}
use balloon_suchai_flight_so.Telemetry.{cmd_ok, cmd_fail}
use balloon_suchai_flight_so.FlightPlan.{
  Plan, Job, Line, Outcome, done, blocked, fault, M, ◌>>=◌, pure, dat_get_fp, dat_set_fp,
  dat_del_fp, dat_show_fp, dat_reset_fp,
}
use balloon_suchai_flight_so.Comms.{send_if}

-- The loop over the executions: the commands sent, and the status variables; `none` is a fault of
-- `cmd_get_str`.
unfoldable pub send_rounds : ℕ → Text → Text → Repo → ℕ → Buff → Option (List Cmd × Buff)
send_rounds elapsed_sec command fixed_args r zero b = some ([], b)
send_rounds elapsed_sec command fixed_args r (suc rounds) b =
    let rest =
      send_rounds elapsed_sec command fixed_args r rounds
        (dat_set_system_var b (index dat_fpl_last) elapsed_sec) in
    bind (cmd_get_str command r) (λ new_cmd.
      bind rest (λ (cmds, b'). some (send_if (cmd_add_params_str new_cmd fixed_args) cmds, b')))

-- The number of turns of `for(i=0; i < executions; i++)`.
abbrev pub turns : ℕ → ℕ
turns executions = if slt 0 executions then executions else 0

-- One turn of the task's loop: the commands sent, the status variables, and the flight plan. `junk`
-- is the byte that `fix_fmt` leaves as `malloc` gave it.
unfoldable pub second : ℕ → ℕ → Repo → Buff → M (List Cmd × Buff)
second junk elapsed_sec r b = dat_get_fp elapsed_sec >>= λ found. elim found [
  | none ↦ pure ([], b)
  | some job ↦ elim (fix_fmt junk job.args) [
    | none ↦ λ p. fault
    | some fixed_args ↦
        elim (send_rounds elapsed_sec job.command fixed_args r (turns job.executions) b) [
          | none ↦ λ p. fault
          | some sent ↦ pure sent
        ]
  ]
]

-- `struct tm`, as far as the code fills it.
pub record Tm : Type 0 where
  pub tm_mday : ℕ
  pub tm_mon : ℕ
  pub tm_year : ℕ
  pub tm_hour : ℕ
  pub tm_min : ℕ
  pub tm_sec : ℕ
  pub tm_isdst : ℕ

-- The six numbers that the commands and `date_to_unixtime` make a time of.
pub record Date : Type 0 where
  pub day : ℕ
  pub month : ℕ
  pub year : ℕ
  pub hour : ℕ
  pub min : ℕ
  pub sec : ℕ

unfoldable pub tm_of : ℕ → Date → Tm
tm_of isdst d = record {
  tm_mday = d.day;
  tm_mon = sub_32 d.month 1;
  tm_year = sub_32 d.year 1900;
  tm_hour = d.hour;
  tm_min = d.min;
  tm_sec = d.sec;
  tm_isdst = isdst;
}

-- `rc == 0` as the commands report it.
abbrev pub report : ℕ → ℕ
report rc = if rc == 0 then cmd_ok else cmd_fail

module _ (mktime : Tm → ℕ) where
  -- `junk` is what the stack held in `tm_isdst`, which this function does not set.
  unfoldable pub date_to_unixtime : ℕ → Date → ℕ
  date_to_unixtime junk d = mktime (tm_of junk d)

  -- `sscanf` gives the number of arguments it stores, and those.
  unfoldable pub fp_set : (Text → Text → ℕ × Date × Job) → Text → Option Text → ℕ → M ℕ
  fp_set sscanf fmt none nparams = λ p. fault
  fp_set sscanf fmt (some params) nparams =
      let (count, date, job) = sscanf params fmt in
      if count == nparams
      then (dat_set_fp (mktime (tm_of 0 date)) job.command job.args job.executions job.periodical
          >>= λ rc. pure (report rc))
      else pure cmd_fail

  unfoldable pub fp_delete : (Text → Text → ℕ × Date) → Text → Option Text → ℕ → M ℕ
  fp_delete sscanf fmt none nparams = λ p. fault
  fp_delete sscanf fmt (some params) nparams =
      let (count, date) = sscanf params fmt in
      if count == nparams
      then (dat_del_fp (mktime (tm_of 0 date)) >>= λ rc. pure (report rc))
      else pure cmd_fail

-- What it prints, and its result.
unfoldable pub fp_show : M (List Line × ℕ)
fp_show = dat_show_fp >>= λ (lines, rc). pure (lines, report rc)

unfoldable pub fp_reset : M ℕ
fp_reset = dat_reset_fp >>= λ rc. pure (report rc)

-- `sscanf` gives the number of arguments it stores.
unfoldable pub test_fp_params : (Text → Text → ℕ) → Text → Option Text → ℕ → M ℕ
test_fp_params sscanf fmt none nparams = λ p. fault
test_fp_params sscanf fmt (some params) nparams =
    pure (if sscanf params fmt == nparams then cmd_ok else cmd_fail)
