-- ===== src/Housekeeping/Phases.antt =====
-- `change_system_phase` of src/system/taskHousekeeping.c: which phase it chooses.
use balloon_suchai_flight_so.Prelude.{
  ℕ, ◌≡◌, ◌<◌, ◌^◌, ◌+◌, ◌&&◌, not, List, [], ◌∷◌, arith, ltb, leb, ◌==◌, if◌then◌else◌,
}
use balloon_suchai_flight_so.Prelude.Words.{int_max, minus_one}
use balloon_suchai_flight_so.Status.{Buff, IsValid, dat_get_system_var}
use balloon_suchai_flight_so.Status.Vars.{dat_system_last_var, index}
use balloon_suchai_flight_so.Status.Vars.DatSystem.{dat_balloon_phase, dat_obc_hrs_alive}
use balloon_suchai_flight_so.Status.Access.{get-set_system_var}
use balloon_suchai_flight_so.Housekeeping.{Phase, number, enter, change_system_phase}
use Phase.{phase_a0, phase_a1, phase_a, phase_b, phase_b1, phase_b2, phase_c, phase_c1}

-- The last minute of each phase but the last one.
abbrev pub limits : List ℕ
limits = 20 ∷ 26 ∷ 60 ∷ 95 ∷ 101 ∷ 107 ∷ 138 ∷ []

-- How many of the limits a number of minutes has passed.
unfoldable pub passed : List ℕ → ℕ → ℕ
passed [] minutes = 0
passed (limit ∷ ls) minutes = (if ltb limit minutes then 1 else 0) + passed ls minutes

-- The phase of a number of minutes, which is an `int`: a negative one counts as none.
abbrev pub phase_at : ℕ → ℕ
phase_at minutes = if leb minutes int_max then passed limits minutes else 0

get-enter :
    (b : Buff) (phase : Phase) (j : ℕ)
    → IsValid b
    → j < dat_system_last_var
    → dat_get_system_var (enter b (dat_get_system_var b (index dat_balloon_phase)) phase) j
      ≡ (if j == index dat_balloon_phase then number phase else dat_get_system_var b j)
unfolding enter
get-enter b phase j valid h = ground (arith, get-set_system_var b 53 j (number phase) valid)

pub phase_follows_minutes :
    (b : Buff) (j : ℕ)
    → IsValid b
    → j < dat_system_last_var
    → dat_get_system_var b (index dat_obc_hrs_alive) < 2 ^ 32
    → dat_get_system_var (change_system_phase b) j ≡ (
        if (j == index dat_balloon_phase)
          && not (dat_get_system_var b (index dat_obc_hrs_alive) == minus_one)
        then phase_at (dat_get_system_var b (index dat_obc_hrs_alive))
        else dat_get_system_var b j)
unfolding change_system_phase passed
phase_follows_minutes b j valid h range = ground (
  arith,
  get-enter b phase_a0 j valid h,
  get-enter b phase_a1 j valid h,
  get-enter b phase_a j valid h,
  get-enter b phase_b j valid h,
  get-enter b phase_b1 j valid h,
  get-enter b phase_b2 j valid h,
  get-enter b phase_c j valid h,
  get-enter b phase_c1 j valid h,
)
