-- ===== src/Watchdog.antt =====
-- The watchdog task of src/system/taskWatchdog.c, as a step of one second over the status variables,
-- and `drp_clear_gnd_wdt` of src/system/cmdDRP.c, which the ground sends. A step gives the commands
-- that it sends. The task counts in `unsigned int`, which wraps round at 2 ^ 32.
pub mod Timers
mod Tests
use balloon_suchai_flight_so.Prelude.{ℕ, zero, suc, ◌*◌, List, [], ◌∷◌, ◌++◌, ltb, if◌then◌else◌}
use balloon_suchai_flight_so.Prelude.Words.{add_32}
use balloon_suchai_flight_so.Status.{Buff, dat_set_system_var, dat_get_system_var}
use balloon_suchai_flight_so.Status.Vars.{index}
use balloon_suchai_flight_so.Status.Vars.DatSystem.{dat_obc_sw_wdt}

-- SCH_MAX_WDT_TIMER
abbrev pub max_obc_wdt : ℕ
max_obc_wdt = 5

-- SCH_MAX_GND_WDT_TIMER, 48 hours
abbrev pub max_gnd_wdt : ℕ
max_gnd_wdt = 3600 * 48

pub data Request : Type 0 where
  obc_reset_wdt obc_reset : Request

-- The timer of the task and the status variables.
pub record Wdt : Type 0 where
  pub elapsed_obc_timer : ℕ
  pub buff : Buff

-- One turn of `taskWatchdog`.
unfoldable pub second : Wdt → List Request × Wdt
second w =
    let elapsed = add_32 w.elapsed_obc_timer 1 in
    let sw = add_32 (dat_get_system_var w.buff (index dat_obc_sw_wdt)) 1 in
    (
      (if ltb max_obc_wdt elapsed then obc_reset_wdt ∷ [] else [])
          ++ (if ltb max_gnd_wdt sw then obc_reset ∷ [] else []),
      record {
        elapsed_obc_timer = if ltb max_obc_wdt elapsed then 0 else elapsed;
        buff = dat_set_system_var w.buff (index dat_obc_sw_wdt) sw;
      },
    )

unfoldable pub drp_clear_gnd_wdt : Buff → Buff
drp_clear_gnd_wdt b = dat_set_system_var b (index dat_obc_sw_wdt) 0

-- What the task sends in `n` seconds, with nothing written between.
unfoldable pub alone : ℕ → Wdt → List Request × Wdt
alone zero w = ([], w)
alone (suc n) w = let now = second w in let later = alone n (now.1) in (now.0 ++ later.0, later.1)

-- What the task sends over seconds in which the other tasks write to the variables: each element is
-- the state of the variables at the start of a second.
unfoldable pub among : List Buff → ℕ → List Request
among [] elapsed = []
among (b ∷ bs) elapsed =
    let now = second (record { elapsed_obc_timer = elapsed; buff = b }) in
    now.0 ++ among bs ((now.1).elapsed_obc_timer)
