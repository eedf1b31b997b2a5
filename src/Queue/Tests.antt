-- ===== src/Queue/Tests.antt =====
-- The theorems on the Linux queues at concrete inputs.
use mathlib.Core.Option
use mathlib.Core.Option.{bind}
use balloon_suchai_flight_so.Prelude.{List, ℕ, ◌≡◌, refl, arith, [], ◌∷◌, some}
use balloon_suchai_flight_so.Queue.{Queue, os_pthread_queue_create}
use balloon_suchai_flight_so.Queue.Ring.{IsValid, contents}
use balloon_suchai_flight_so.Queue.Fifo.{Call, seen, run, run_list, first_in_first_out}
use Call.{send, receive}

-- Three places, the oldest item in the last one.
abbrev ring : Queue ℕ
ring = record { buffer = 8 ∷ 0 ∷ 7 ∷ []; size = 3; items = 2; next = 1; first = 2 }

ring-IsValid : IsValid ring
ring-IsValid = record {
  length_size = refl;
  items_size = omega arith;
  first_size = omega arith;
  next_first = refl;
}

ring_holds : contents 0 ring ≡ 7 ∷ 8 ∷ []
ring_holds = refl

-- Two places: the third value is written over the first one's place.
abbrev wrapping : List (Call ℕ)
wrapping = send 4 ∷ send 5 ∷ receive ∷ send 6 ∷ receive ∷ []

first_in_first_out_example :
    Option.map (seen 0) (run 0 wrapping (os_pthread_queue_create 0 2)) ≡ run_list 2 wrapping []
first_in_first_out_example = first_in_first_out 0 2 wrapping (omega arith)

wrapping_runs : run_list 2 wrapping [] ≡ some (4 ∷ 5 ∷ [], 6 ∷ [])
unfolding run_list bind
wrapping_runs = refl
