-- ===== src/Housekeeping/Tests.antt =====
-- The theorems on the housekeeping task at concrete inputs.
use balloon_suchai_flight_so.Prelude.{◌≡◌, refl, arith, false, ◌%◌, ◌==◌, ◌&&◌, ◌||◌, leb, ltb}
use balloon_suchai_flight_so.Prelude.Words.{add_32, int_max}
use balloon_suchai_flight_so.Status.{
  Buff, blank, IsValid, dat_set_system_var, dat_get_system_var, vote,
}
use balloon_suchai_flight_so.Housekeeping.{second}
use balloon_suchai_flight_so.Housekeeping.Phases.{passed, limits}
use balloon_suchai_flight_so.Housekeeping.Deploy.{opens, opens_in_windows}

-- 97 minutes alive.
abbrev late : Buff
unfolding dat_set_system_var
late = dat_set_system_var blank 2 97

late_97 : dat_get_system_var late 2 ≡ 97
unfolding dat_get_system_var vote dat_set_system_var
late_97 = refl

late-IsValid : IsValid late
unfolding late
late-IsValid = refl

phase_b1_at_97 : passed limits 97 ≡ 4
unfolding passed
phase_b1_at_97 = refl

opens_in_windows_example : opens ((second 39 false late).0) ≡ (
    ((leb (dat_get_system_var late 2) 20 || ltb int_max (dat_get_system_var late 2))
      && (add_32 39 1 % 300 == 0))
    || ((ltb 95 (dat_get_system_var late 2) && leb (dat_get_system_var late 2) 101)
        && (add_32 39 1 % 20 == 0)))
opens_in_windows_example =
    opens_in_windows 39 false late late-IsValid (omega (arith, late_97))
      (λ e. omega (arith, late_97, e))
