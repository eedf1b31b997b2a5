-- ===== src/Scheduler/Tests.antt =====
-- The theorems on src/system/taskFlightPlan.c and src/system/cmdFP.c at concrete inputs.
use balloon_suchai_flight_so.Prelude.{
  ℕ, ◌≡◌, refl, [], ◌∷◌, ◌++◌, some, arith, inl, inr, false, ◌==◌, if◌then◌else◌, ◌+◌, ◌*◌,
}
use balloon_suchai_flight_so.Prelude.Text.{Text, codes}
use balloon_suchai_flight_so.Commands.{cmd_of}
use balloon_suchai_flight_so.Commands.Idle.{idle, idle_null, null_command}
use balloon_suchai_flight_so.Commands.Params.{cmd_add_params_str, commas_to_spaces, stepped_over}
use balloon_suchai_flight_so.Status.{Buff, blank, dat_get_system_var}
use balloon_suchai_flight_so.Status.Vars.{index}
use balloon_suchai_flight_so.Status.Vars.DatSystem.{dat_fpl_last}
use balloon_suchai_flight_so.FlightPlan.{Plan, Job, done, blocked, empty_slot, new_slot}
use balloon_suchai_flight_so.FlightPlan.Slots.{AllSound, pending, due, free_slots}
use balloon_suchai_flight_so.FlightPlan.Schedule.{timed}
use balloon_suchai_flight_so.Scheduler.{tm_of, Tm, Date, second, turns, fp_set}
use balloon_suchai_flight_so.Scheduler.Runs.{copies, due_job_is_sent}
use balloon_suchai_flight_so.Scheduler.Scheduled.{scheduled_command_is_sent}

-- A job that runs twice, and then each 10 seconds.
abbrev twice : Plan
twice = record {
  data_base = new_slot 100 (codes "null") (codes "1,2") 2 10 ∷ empty_slot ∷ [];
  held = false;
}

twice-AllSound : AllSound twice.data_base
twice-AllSound = (inr (omega arith, omega arith), (inl refl, tt))

due_job_is_sent_example :
    (b' : Buff) × (p' : Plan) × (second 90 100 idle blank twice
      ≡ done (
        (
          copies (turns 2) (
              cmd_add_params_str
                (some (cmd_of 0 null_command))
                (commas_to_spaces (codes "1,2") ++ stepped_over 90)),
          b',
        ),
        p',
      ))
    × (dat_get_system_var b' 21 ≡ (
        if turns 2 == 0
        then dat_get_system_var blank 21
        else if index dat_fpl_last == 21
        then 100
        else dat_get_system_var blank 21))
    × (second 91 101 idle b' p' ≡ blocked)
unfolding pending due
due_job_is_sent_example =
    due_job_is_sent 90 91 100 101 twice (timed 100 (codes "null") (codes "1,2") 2 10) idle blank
      (some (cmd_of 0 null_command)) 21 refl (omega arith) (omega arith) (omega arith) (omega arith)
      twice-AllSound refl idle_null refl (omega arith)

abbrev empty : Plan
empty = record { data_base = empty_slot ∷ []; held = false }

abbrev the_job : Job
the_job = record { command = codes "null"; args = codes "1,2"; executions = 2; periodical = 0 }

abbrev the_date : Date
the_date = record { day = 1; month = 1; year = 1970; hour = 0; min = 1; sec = 40 }

-- A `mktime` for the first minutes of 1970.
abbrev clock : Tm → ℕ
clock tm = tm.tm_min * 60 + tm.tm_sec

abbrev reads_job : Text → Text → ℕ × Date × Job
reads_job params fmt = (10, the_date, the_job)

scheduled_command_is_sent_example :
    (p_1 : Plan) × (b' : Buff) × (p_2 : Plan) × (fp_set clock reads_job [] (some []) 10 empty
      ≡ done (1, p_1))
    × (second 90 100 idle blank p_1
        ≡ done (
          (
            copies (turns 2) (
                cmd_add_params_str
                  (some (cmd_of 0 null_command))
                  (commas_to_spaces (codes "1,2") ++ stepped_over 90)),
            b',
          ),
          p_2,
        ))
unfolding pending due free_slots tm_of
scheduled_command_is_sent_example =
    scheduled_command_is_sent clock reads_job [] [] the_date the_job 90 100 empty idle blank
      (some (cmd_of 0 null_command)) refl refl refl (omega arith) (omega arith) (omega arith)
      (omega arith) (inl refl, tt) (omega arith) refl (omega arith) (omega arith) idle_null refl
