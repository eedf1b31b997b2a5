-- ===== src/Drp/Tests.antt =====
-- The theorems on the data repository's commands at concrete inputs.
use balloon_suchai_flight_so.Prelude.{◌≡◌, refl, arith, List, [], ◌∷◌, some, ℕ}
use balloon_suchai_flight_so.Prelude.Text.{Text, codes}
use balloon_suchai_flight_so.Status.{Buff, blank, dat_get_system_var}
use balloon_suchai_flight_so.Drp.{cmd_ok, drp_execute_before_flight}
use balloon_suchai_flight_so.Drp.Flight.{before_flight_resets}

-- A `sscanf` that reads one number.
abbrev reads : ℕ → Text → Text → List ℕ
reads n params fmt = n ∷ []

before_flight_resets_example :
    (b' : Buff) × (drp_execute_before_flight
        (reads 1010)
        1700000000
        (codes "%d")
        (some (codes "1010"))
        1
        blank
      ≡ (cmd_ok, b'))
    × (dat_get_system_var b' 12 ≡ 1700000000)
before_flight_resets_example =
    before_flight_resets (reads 1010) 1700000000 (codes "%d") (codes "1010") 1 blank 12 refl refl
      refl (omega arith)
