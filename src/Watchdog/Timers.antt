-- ===== src/Watchdog/Timers.antt =====
-- When the watchdog task of src/system/taskWatchdog.c sends its two commands.
use balloon_suchai_flight_so.Prelude.{
  ℕ, zero, suc, ◌≡◌, ◌<◌, ◌≤◌, ◌+◌, ◌/◌, ◌-◌, ◌^◌, ◌∙◌, List, [], ◌∷◌, ◌++◌, arith, ltb,
  if◌then◌else◌, length,
}
use balloon_suchai_flight_so.Prelude.Words.{add_32}
use balloon_suchai_flight_so.Status.{Buff, IsValid, dat_get_system_var}
use balloon_suchai_flight_so.Status.Vars.{index}
use balloon_suchai_flight_so.Status.Vars.DatSystem.{dat_obc_sw_wdt}
use balloon_suchai_flight_so.Status.Access.{get-set_system_var, dat_set_system_var-IsValid}
use balloon_suchai_flight_so.Watchdog.{Request, Wdt, max_gnd_wdt, second, alone, among}
use Request.{obc_reset_wdt, obc_reset}

-- How many requests reset the OBC's watchdog, and how many the OBC.
unfoldable pub wdt_resets : List Request → ℕ
wdt_resets [] = 0
wdt_resets (obc_reset_wdt ∷ rs) = suc (wdt_resets rs)
wdt_resets (obc_reset ∷ rs) = wdt_resets rs

unfoldable pub obc_resets : List Request → ℕ
obc_resets [] = 0
obc_resets (obc_reset_wdt ∷ rs) = obc_resets rs
obc_resets (obc_reset ∷ rs) = suc (obc_resets rs)

wdt_resets-append : (rs ss : List Request) → wdt_resets (rs ++ ss) ≡ wdt_resets rs + wdt_resets ss
unfolding wdt_resets
wdt_resets-append [] ss = omega arith
wdt_resets-append (obc_reset_wdt ∷ rs) ss = omega (arith, wdt_resets-append rs ss)
wdt_resets-append (obc_reset ∷ rs) ss = wdt_resets-append rs ss

obc_resets-append : (rs ss : List Request) → obc_resets (rs ++ ss) ≡ obc_resets rs + obc_resets ss
unfolding obc_resets
obc_resets-append [] ss = omega arith
obc_resets-append (obc_reset_wdt ∷ rs) ss = obc_resets-append rs ss
obc_resets-append (obc_reset ∷ rs) ss = omega (arith, obc_resets-append rs ss)

wdt_second :
    (w : Wdt)
    → w.elapsed_obc_timer ≤ 5
    → (wdt_resets ((second w).0) ≡ (if ltb 4 w.elapsed_obc_timer then 1 else 0))
      × (((second w).1).elapsed_obc_timer
          ≡ (if ltb 4 w.elapsed_obc_timer then 0 else w.elapsed_obc_timer + 1))
unfolding second wdt_resets
wdt_second w h = ground arith

obc_second :
    (w : Wdt)
    → obc_resets ((second w).0) ≡ (
        if ltb max_gnd_wdt (add_32 (dat_get_system_var w.buff (index dat_obc_sw_wdt)) 1)
        then 1
        else 0)
unfolding second obc_resets
obc_second w = ground arith

-- Whatever the other tasks write, the OBC's watchdog is reset once in each six seconds: in `n`
-- seconds from a timer of `elapsed`, at most 5, one reset for each whole six of `elapsed + n`.
pub wdt_reset_rate :
    (bs : List Buff) (elapsed : ℕ)
    → elapsed ≤ 5
    → wdt_resets (among bs elapsed) ≡ (elapsed + length bs) / 6
unfolding among wdt_resets
wdt_reset_rate [] elapsed h = omega arith
wdt_reset_rate (b ∷ bs) elapsed h =
    let w : Wdt = record { elapsed_obc_timer = elapsed; buff = b } in
    let (sent, next) = wdt_second w h in
    let later = wdt_reset_rate bs (((second w).1).elapsed_obc_timer) (ground (arith, next)) in
    wdt_resets-append ((second w).0) (among bs (((second w).1).elapsed_obc_timer))
    ∙ ground (arith, sent, next, later)

second-counts :
    (w : Wdt)
    → IsValid w.buff
    → IsValid (((second w).1).buff)
      × (dat_get_system_var (((second w).1).buff) (index dat_obc_sw_wdt)
          ≡ add_32 (dat_get_system_var w.buff (index dat_obc_sw_wdt)) 1)
unfolding second
second-counts w valid = (
  dat_set_system_var-IsValid w.buff 5 _ valid,
  get-set_system_var w.buff 5 5 _ valid (omega arith) (omega arith),
)

-- On a buffer of 171 slots, with nothing else written for `n` seconds, from a count of `v` that
-- does not wrap round, the OBC is sent one reset for each of those seconds in which the count is
-- past 48 hours, and none before; the count is then `v + n`.
pub ground_watchdog :
    (n v : ℕ) (w : Wdt)
    → IsValid w.buff
    → dat_get_system_var w.buff (index dat_obc_sw_wdt) ≡ v
    → v + n < 2 ^ 32
    → (obc_resets ((alone n w).0) ≡ n - (max_gnd_wdt - v))
      × (dat_get_system_var (((alone n w).1).buff) (index dat_obc_sw_wdt) ≡ v + n)
unfolding alone obc_resets
ground_watchdog zero v w valid e h = (omega arith, omega (arith, e))
ground_watchdog (suc n) v w valid e h =
    let (valid', count) = second-counts w valid in
    let next : dat_get_system_var (((second w).1).buff) (index dat_obc_sw_wdt) ≡ v + 1 =
      count ∙ ground (arith, e) in
    let (sent, counted) = ground_watchdog n (v + 1) ((second w).1) valid' next (omega arith) in
    let now = obc_second w in
    (
      ground (arith, obc_resets-append ((second w).0) ((alone n ((second w).1)).0), now, sent, e),
      counted ∙ omega arith,
    )
