-- ===== src/Housekeeping.antt =====
-- The housekeeping task of src/system/taskHousekeeping.c, as a step of one second over the status
-- variables. A step gives the commands that it sends to the dispatcher, by name: `cmd_send` waits
-- for a place in the queue, so none is dropped. The other tasks run between two steps, and may
-- change the variables. The sample that is read each ten minutes gives the height, which is an
-- input here: it takes part in one test, and decides nothing.
pub mod Phases
pub mod Rate
pub mod Deploy
mod Tests
use balloon_suchai_flight_so.Prelude.{
  ℕ, Bool, true, false, not, ◌&&◌, ◌||◌, List, [], ◌∷◌, ◌++◌, ◌%◌, ◌==◌, if◌then◌else◌,
}
use balloon_suchai_flight_so.Prelude.Words.{add_32, slt, sle, minus_one}
use balloon_suchai_flight_so.Status.{Buff, dat_set_system_var, dat_get_system_var}
use balloon_suchai_flight_so.Status.Vars.{index}
use balloon_suchai_flight_so.Status.Vars.DatSystem.{dat_balloon_phase, dat_obc_hrs_alive}

-- `enum phase_n`
pub data Phase : Type 0 where
  phase_a0 phase_a1 phase_a phase_b phase_b1 phase_b2 phase_c phase_c1 : Phase

abbrev pub number : Phase → ℕ
number phase_a0 = 0
number phase_a1 = 1
number phase_a = 2
number phase_b = 3
number phase_b1 = 4
number phase_b2 = 5
number phase_c = 6
number phase_c1 = 7

abbrev pub min_phase_a : ℕ
min_phase_a = 20

abbrev pub min_phase_a1 : ℕ
min_phase_a1 = 26

abbrev pub min_phase_b : ℕ
min_phase_b = 60

abbrev pub min_phase_b1 : ℕ
min_phase_b1 = 95

abbrev pub min_phase_b2 : ℕ
min_phase_b2 = 101

abbrev pub min_phase_c : ℕ
min_phase_c = 107

abbrev pub min_phase_c1 : ℕ
min_phase_c1 = 138

-- `if(current_phase != phase) dat_set_system_var(dat_balloon_phase, phase)`
unfoldable pub enter : Buff → ℕ → Phase → Buff
enter b current_phase phase =
    if current_phase == number phase
    then b
    else dat_set_system_var b (index dat_balloon_phase) (number phase)

unfoldable pub change_system_phase : Buff → Buff
change_system_phase b =
    let current_phase = dat_get_system_var b (index dat_balloon_phase) in
    let min_alive = dat_get_system_var b (index dat_obc_hrs_alive) in
    if min_alive == minus_one
    then b
    else if sle min_alive min_phase_a
    then enter b current_phase phase_a0
    else if slt min_phase_a min_alive && sle min_alive min_phase_a1
    then enter b current_phase phase_a1
    else if slt min_phase_a1 min_alive && sle min_alive min_phase_b
    then enter b current_phase phase_a
    else if slt min_phase_b min_alive && sle min_alive min_phase_b1
    then enter b current_phase phase_b
    else if slt min_phase_b1 min_alive && sle min_alive min_phase_b2
    then enter b current_phase phase_b1
    else if slt min_phase_b2 min_alive && sle min_alive min_phase_c
    then enter b current_phase phase_b2
    else if slt min_phase_c min_alive && sle min_alive min_phase_c1
    then enter b current_phase phase_c
    else if slt min_phase_c1 min_alive
    then enter b current_phase phase_c1
    else b

-- The commands that the task asks for.
pub data Request : Type 0 where
  get_gps_data get_prs_data get_dpl_data run_sstv send_xbee_data send_sun_data : Request
  open_dpl_1 drp_add_hrs_alive : Request

-- The commands of the tests that hold, in order.
unfoldable pub asked : List (Bool × Request) → List Request
asked [] = []
asked ((test, r) ∷ rs) = (if test then r ∷ [] else []) ++ asked rs

-- The body of the loop behind `change_system_phase`; `at_height` is the test of the last pressure
-- sample's height against the deployment window. `drp_add_hrs_alive` gets the parameter 1.
unfoldable pub requests : ℕ → ℕ → Bool → List Request
requests elapsed_sec phase at_height = asked (
    (elapsed_sec % 10 == 1, get_gps_data)
    ∷ (elapsed_sec % 10 == 4, get_prs_data)
    ∷ (elapsed_sec % 60 == 0, get_dpl_data)
    ∷ (elapsed_sec % 300 == 0, run_sstv)
    ∷ (elapsed_sec % 600 == 0, send_xbee_data)
    ∷ (elapsed_sec % 10 == 0, send_sun_data)
    ∷ ((phase == number phase_a0) && (elapsed_sec % 300 == 0), open_dpl_1)
    ∷ (
      ((phase == number phase_b1) || at_height)
          && ((phase == number phase_b1) && (elapsed_sec % 20 == 0)),
      open_dpl_1,
    )
    ∷ (elapsed_sec % 60 == 0, drp_add_hrs_alive)
    ∷ [])

-- One turn of `taskHousekeeping`: what it sends, the seconds counter and the variables.
unfoldable pub second : ℕ → Bool → Buff → List Request × ℕ × Buff
second elapsed_sec at_height b =
    let elapsed = add_32 elapsed_sec 1 in
    let b' = change_system_phase b in
    (requests elapsed (dat_get_system_var b' (index dat_balloon_phase)) at_height, elapsed, b')
