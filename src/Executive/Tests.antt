-- ===== src/Executive/Tests.antt =====
-- The theorems on src/system/taskDispatcher.c and src/system/taskExecuter.c, at two commands.
use balloon_suchai_flight_so.Prelude.{
  ℕ, ◌+◌, ◌*◌, ◌≤◌, ◌≡◌, refl, List, [], ◌∷◌, ◌++◌, none, length, ◌⊎◌,
}
use balloon_suchai_flight_so.Commands.{Cmd}
use balloon_suchai_flight_so.Executive.{
  reading, sending, receiving, System, dispatcher_step, check_if_executable, TaskStep, dispatches,
  Reach, begin, tasks, sends, run_all, cmd_send, dispatcher_len,
}
use balloon_suchai_flight_so.Executive.Order.{
  pending, called, steps_left, state, each_runs_once_in_order,
}
use balloon_suchai_flight_so.Executive.Progress.{here, next, every_schedule_finishes}

abbrev plain : ℕ → Cmd
plain n = record { id = n; nparams = 0; fmt = none; params = none; function = none }

-- A function that writes the command's index down.
abbrev note : Cmd → List ℕ → ℕ × List ℕ
note c w = (1, c.id ∷ w)

abbrev two_sent : System (List ℕ)
two_sent = state (plain 3 ∷ plain 7 ∷ []) [] [] reading receiving []

abbrev one_taken : System (List ℕ)
one_taken = state (plain 7 ∷ []) [] [] (sending (plain 3)) receiving []

two_sent-Reach : Reach note [] (plain 3 ∷ plain 7 ∷ []) two_sent
unfolding cmd_send
two_sent-Reach = sends (plain 7) (sends (plain 3) begin refl) refl

one_taken-TaskStep : TaskStep note two_sent one_taken
unfolding dispatcher_step check_if_executable
one_taken-TaskStep = dispatches refl

each_runs_once_in_order_example :
    ((ran : List Cmd) × (ran ++ pending one_taken ≡ plain 3 ∷ plain 7 ∷ [])
      × ([] ≡ run_all note ran []))
    × (length (called one_taken.executer)
          + length one_taken.executer_cmd_queue
          + length one_taken.executer_stat_queue
        ≤ 1)
    × (length one_taken.dispatcher_queue ≤ dispatcher_len)
each_runs_once_in_order_example =
    each_runs_once_in_order note [] (plain 3 ∷ plain 7 ∷ []) one_taken
      (tasks two_sent-Reach one_taken-TaskStep)

every_schedule_finishes_example :
    (1 + steps_left one_taken ≡ steps_left two_sent)
    × (steps_left two_sent ≤ 6 * length (pending two_sent) + 2)
    × (((u : System (List ℕ)) × TaskStep note one_taken u)
        ⊎ ((steps_left one_taken ≡ 0) × ([] ≡ run_all note (pending two_sent) [])))
every_schedule_finishes_example =
    every_schedule_finishes note [] (plain 3 ∷ plain 7 ∷ []) two_sent one_taken 1 two_sent-Reach
      (next here one_taken-TaskStep)
