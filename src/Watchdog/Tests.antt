-- ===== src/Watchdog/Tests.antt =====
-- The theorems on the watchdog task at concrete inputs.
use balloon_suchai_flight_so.Prelude.{◌≡◌, refl, arith, [], ◌∷◌, ◌+◌, ◌/◌}
use balloon_suchai_flight_so.Status.{blank, IsValid, dat_set_system_var, dat_get_system_var, vote}
use balloon_suchai_flight_so.Watchdog.{Wdt, among}
use balloon_suchai_flight_so.Watchdog.Timers.{wdt_resets, wdt_reset_rate}

-- One second before the ground watchdog runs out.
abbrev silent : Wdt
unfolding dat_set_system_var
silent = record { elapsed_obc_timer = 5; buff = dat_set_system_var blank 5 172799 }

silent_count : dat_get_system_var silent.buff 5 ≡ 172799
unfolding dat_get_system_var vote dat_set_system_var
silent_count = refl

silent-IsValid : IsValid silent.buff
unfolding silent
silent-IsValid = refl

wdt_reset_rate_example : wdt_resets (among (blank ∷ blank ∷ []) 5) ≡ (5 + 2) / 6
wdt_reset_rate_example = wdt_reset_rate (blank ∷ blank ∷ []) 5 (omega arith)
