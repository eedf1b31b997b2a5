-- ===== src/FlightPlan/Tests.antt =====
-- Runs of the flight plan, and its theorems at concrete inputs.
use balloon_suchai_flight_so.Prelude.{
  ◌≡◌, refl, true, false, [], ◌∷◌, some, arith, inl, inr, replicate,
}
use mathlib.Core.List.{Perm}
use balloon_suchai_flight_so.Prelude.Text.{codes}
use balloon_suchai_flight_so.FlightPlan.{
  Plan, done, fault, take_sem, empty_slot, new_slot, dat_set_fp_async, dat_del_fp_async,
  dat_get_fp_locked, dat_get_fp, dat_set_fp, dat_del_fp, fill_free, find, clear, copy_out,
  reschedule,
}
use balloon_suchai_flight_so.FlightPlan.Slots.{Timed, pending, free_slots, due, AllSound}
use balloon_suchai_flight_so.FlightPlan.Runs.{fetched}
use balloon_suchai_flight_so.FlightPlan.Schedule.{timed, set_fp_adds, del_fp_deletes, get_fp_runs}
use balloon_suchai_flight_so.FlightPlan.Locking.{show, Blocks, get_fp_deadlocks, set_fp_overflows}

abbrev beacon : Timed
beacon = timed 100 (codes "send_beacon") (codes "null") 1 10

-- One periodic job and one free slot.
abbrev roomy : Plan
roomy = record {
  data_base = new_slot 100 (codes "send_beacon") (codes "null") 1 10 ∷ empty_slot ∷ [];
  held = false;
}

roomy-AllSound : AllSound roomy.data_base
roomy-AllSound = (inr (omega arith, omega arith), (inl refl, tt))

-- The same job in a table with no free slot.
abbrev crowded : Plan
crowded = record {
  data_base = new_slot 100 (codes "send_beacon") (codes "null") 1 10 ∷ [];
  held = false;
}

crowded_loses_periodic :
    dat_get_fp 100 crowded
    ≡ done (some (fetched beacon), record { data_base = clear 100 crowded.data_base; held = true })
unfolding dat_get_fp take_sem dat_get_fp_locked find copy_out reschedule dat_set_fp_async
    dat_del_fp_async fill_free
crowded_loses_periodic = refl

set_fp_adds_example :
    (p' : Plan) × (dat_set_fp 105 (codes "help") (codes "null") 1 0 roomy ≡ done (0, p'))
    × (p'.held ≡ false)
    × AllSound p'.data_base
    × Perm
        (pending p'.data_base)
        (timed 105 (codes "help") (codes "null") 1 0 ∷ pending roomy.data_base)
unfolding free_slots
set_fp_adds_example =
    set_fp_adds 105 (codes "help") (codes "null") 1 0 roomy refl (omega arith) roomy-AllSound
      (omega arith) (omega arith) (omega arith)

del_fp_deletes_example :
    (p' : Plan) × (dat_del_fp 100 roomy ≡ done (0, p'))
    × (p'.held ≡ false)
    × AllSound p'.data_base
    × Perm (pending roomy.data_base) (beacon ∷ pending p'.data_base)
unfolding due pending
del_fp_deletes_example = del_fp_deletes 100 roomy beacon refl (omega arith) roomy-AllSound refl

get_fp_runs_example :
    (p' : Plan) × (dat_get_fp 100 roomy ≡ done (some (fetched beacon), p'))
    × (p'.held ≡ true)
    × AllSound p'.data_base
    × Perm
        (beacon ∷ pending p'.data_base)
        (timed 110 (codes "send_beacon") (codes "null") 1 10 ∷ pending roomy.data_base)
unfolding due pending free_slots
get_fp_runs_example =
    get_fp_runs 100 roomy beacon refl (omega arith) (omega arith) (omega arith) (omega arith)
      roomy-AllSound refl

get_fp_deadlocks_example :
    (p' : Plan) × (dat_get_fp 100 roomy ≡ done (some (fetched beacon), p')) × Blocks show p'
unfolding due pending
get_fp_deadlocks_example =
    get_fp_deadlocks 100 roomy beacon show refl (omega arith) (omega arith) (omega arith)
      (omega arith) roomy-AllSound refl

set_fp_overflows_example : dat_set_fp 105 (codes "help") (replicate 50 b'1') 1 0 roomy ≡ fault
unfolding free_slots
set_fp_overflows_example =
    set_fp_overflows 105 (codes "help") (replicate 50 b'1') 1 0 roomy refl (omega arith)
      (inr (omega arith))
