-- ===== src/Flash/PlanTests.antt =====
-- The theorems on the flight plan in the flash, with a flash in memory and the least byte first.
use balloon_suchai_flight_so.Prelude.{
  ℕ, zero, suc, ◌+◌, ◌-◌, ◌*◌, ◌/◌, ◌%◌, ◌<◌, ◌^◌, ◌≡◌, ◌≢◌, refl, arith, List, [], ◌∷◌, ◌++◌, some,
  get_or, if◌then◌else◌, ◌==◌,
}
use balloon_suchai_flight_so.Prelude.Words.{add_32}
use balloon_suchai_flight_so.Prelude.Text.{codes}
use balloon_suchai_flight_so.Status.{blank, dat_set_system_var, dat_get_system_var, vote}
use balloon_suchai_flight_so.FlightPlan.{Job}
use balloon_suchai_flight_so.Flash.{storage_init, max_command_size}
use balloon_suchai_flight_so.Flash.Plan.{
  Store, queue, set_queue, read, read_job, storage_flight_plan_set, storage_flight_plan_get,
  storage_flight_plan_erase,
}
use balloon_suchai_flight_so.Flash.Slots.{plan_start, slot}
use balloon_suchai_flight_so.Flash.Found.{time_of}
use balloon_suchai_flight_so.Flash.Waiting.{Filled, erasure_drops_the_first}
use balloon_suchai_flight_so.Flash.Fetched.{stored_job_is_given_back, periodic_job_is_stored_again}
use balloon_suchai_flight_so.Flash.Tests.{in_memory, clean}

abbrev pub word : ℕ → List ℕ
word x = x % 256 ∷ x / 256 % 256 ∷ x / 256 / 256 % 256 ∷ x / 256 / 256 / 256 % 256 ∷ []

abbrev pub number : List ℕ → ℕ
number bs = get_or bs 0 0 + 256 * (get_or bs 1 0 + 256 * (get_or bs 2 0 + 256 * get_or bs 3 0))

pub number-word : (x : ℕ) → x < 2 ^ 32 → number (word x) ≡ x
number-word x h = omega (arith, h)

abbrev once : Job
once = record { command = codes "obc_ident"; args = []; executions = 1; periodical = 0 }

abbrev each_minute : Job
each_minute = record {
  command = codes "obc_ident";
  args = codes "1";
  executions = 1;
  periodical = 60;
}

abbrev empty : Store (ℕ → ℕ)
empty = set_queue 0 (record { flash_state = clean; buff = blank })

empty-Filled : Filled in_memory (λ a bs g. refl) (λ a g. refl) word number 0 empty
unfolding dat_set_system_var dat_get_system_var vote
empty-Filled = record {
  valid = refl;
  counted = refl;
  few = omega arith;
  times = λ j l e. omega (arith, l);
}

stored_job_is_given_back_example :
    (st' st'' : Store (ℕ → ℕ)) × (storage_flight_plan_set in_memory storage_init word number 1000
        once empty
      ≡ some (0, st'))
    × (storage_flight_plan_get in_memory storage_init word number 1000 st'
        ≡ some (0, some once, st''))
    × (queue st'' ≡ 0)
    × (read in_memory storage_init word number plan_start (0 * max_command_size) st''.flash_state
        ≡ read in_memory storage_init word number plan_start
            (0 * max_command_size)
            empty.flash_state)
stored_job_is_given_back_example =
    stored_job_is_given_back in_memory (λ a bs g. refl) (λ a g. refl) word number (λ x. refl)
      number-word 1000 0 once empty empty-Filled (omega arith) (λ e. omega (arith, e))
      (λ j l e. omega (arith, l))
      (record {
        time = omega arith;
        executions = omega arith;
        periodical = omega arith;
        command = omega arith;
        args = omega arith;
      })
      (λ k l. refl) refl

periodic_job_is_stored_again_example :
    (st' st'' : Store (ℕ → ℕ)) × (storage_flight_plan_set in_memory storage_init word number 1000
        each_minute empty
      ≡ some (0, st'))
    × (storage_flight_plan_get in_memory storage_init word number 1000 st'
        ≡ some (0, some each_minute, st''))
    × (queue st'' ≡ 1)
    × (read_job in_memory storage_init word number (slot 0) st''.flash_state ≡ each_minute)
    × (time_of in_memory word number 0 st''.flash_state ≡ add_32 1000 60)
periodic_job_is_stored_again_example =
    periodic_job_is_stored_again in_memory (λ a bs g. refl) (λ a g. refl) word number (λ x. refl)
      number-word 1000 0 each_minute empty empty-Filled (omega arith) (λ e. omega (arith, e))
      (λ j l e. omega (arith, l))
      (record {
        time = omega arith;
        executions = omega arith;
        periodical = omega arith;
        command = omega arith;
        args = omega arith;
      })
      (λ k l. refl) refl

-- Two entries, with the times 5 and 7.
abbrev two : Store (ℕ → ℕ)
two = set_queue 2 (record {
  flash_state = λ k. if k == slot 0 then 5 else if k == slot 1 then 7 else 0;
  buff = blank;
})

two-times : (j : ℕ) → j < 2 → time_of in_memory word number j two.flash_state ≢ 0
two-times zero l e = omega (arith, e)
two-times (suc zero) l e = omega (arith, e)
two-times (suc (suc j)) l e = omega (arith, l)

two-before : (j : ℕ) → j < 1 → time_of in_memory word number j two.flash_state ≢ 7
two-before zero l e = omega (arith, e)
two-before (suc j) l e = omega (arith, l)

two-Filled : Filled in_memory (λ a bs g. refl) (λ a g. refl) word number 2 two
unfolding dat_set_system_var dat_get_system_var vote
two-Filled = record { valid = refl; counted = refl; few = omega arith; times = two-times }

erasure_drops_the_first_example :
    (st' : Store (ℕ → ℕ)) × (storage_flight_plan_erase in_memory storage_init word number 7 two
      ≡ some (0, st'))
    × (queue st' ≡ 2 - 1)
    × (read in_memory storage_init word number plan_start
          ((2 - 1) * max_command_size)
          st'.flash_state
        ≡ read in_memory storage_init word number plan_start (1 * max_command_size) two.flash_state
          ++ read in_memory storage_init word number
              (slot (1 + 1))
              ((2 - 1 - 1) * max_command_size)
              two.flash_state)
erasure_drops_the_first_example =
    erasure_drops_the_first in_memory (λ a bs g. refl) (λ a g. refl) word number 7 1 2 two
      two-Filled (omega arith) two-before refl
