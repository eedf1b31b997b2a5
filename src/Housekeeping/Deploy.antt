-- ===== src/Housekeeping/Deploy.antt =====
-- When `taskHousekeeping` of src/system/taskHousekeeping.c asks for the linear actuator.
use balloon_suchai_flight_so.Prelude.{
  ℕ, ◌≡◌, ◌≢◌, ◌<◌, ◌%◌, ◌^◌, ◌==◌, ◌∙◌, refl, ap, ap₂, Bool, true, false, List, [], ◌∷◌, arith,
  ◌||◌, ◌&&◌, leb, ltb,
}
use balloon_suchai_flight_so.Prelude.Words.{add_32, int_max, minus_one}
use balloon_suchai_flight_so.Status.{Buff, IsValid, dat_get_system_var}
use balloon_suchai_flight_so.Status.Vars.{index}
use balloon_suchai_flight_so.Status.Vars.DatSystem.{dat_balloon_phase, dat_obc_hrs_alive}
use balloon_suchai_flight_so.Housekeeping.{Request, asked, requests, second, change_system_phase}
use balloon_suchai_flight_so.Housekeeping.Phases.{passed, phase_at, phase_follows_minutes}
use Request.{open_dpl_1}

abbrev is_open : Request → Bool
is_open open_dpl_1 = true
is_open _ = false

-- Whether the linear actuator is among the requests.
unfoldable pub opens : List Request → Bool
opens [] = false
opens (r ∷ rs) = is_open r || opens rs

abbrev either : List (Bool × Request) → Bool
either [] = false
either ((test, r) ∷ rs) = (test && is_open r) || either rs

opens-asked : (l : List (Bool × Request)) → opens (asked l) ≡ either l
unfolding opens asked
opens-asked [] = refl
opens-asked ((true, r) ∷ rs) = ap (◌||◌ (is_open r)) (opens-asked rs)
opens-asked ((false, r) ∷ rs) = opens-asked rs

opens-requests :
    (e phase : ℕ) (h : Bool)
    → opens (requests e phase h)
      ≡ (((phase == 0) && (e % 300 == 0)) || ((phase == 4) && (e % 20 == 0)))
unfolding requests
opens-requests e phase h = opens-asked _ ∙ ground arith

window :
    (m : ℕ)
    → m < 2 ^ 32
    → ((phase_at m == 0) ≡ (leb m 20 || ltb int_max m))
      × ((phase_at m == 4) ≡ (ltb 95 m && leb m 101))
unfolding passed
window m h = (ground arith, ground arith)

-- On a buffer of 171 slots whose minutes alive do not read -1, the linear actuator is asked for in
-- two cases alone, whatever the height: each five minutes of the seconds counter up to minute 20 (a
-- negative count included), and each 20 seconds from minute 96 to minute 101.
pub opens_in_windows :
    (e : ℕ) (at_height : Bool) (b : Buff)
    → IsValid b
    → dat_get_system_var b (index dat_obc_hrs_alive) < 2 ^ 32
    → dat_get_system_var b (index dat_obc_hrs_alive) ≢ minus_one
    → opens ((second e at_height b).0) ≡ (
        ((leb (dat_get_system_var b (index dat_obc_hrs_alive)) 20
            || ltb int_max (dat_get_system_var b (index dat_obc_hrs_alive)))
          && (add_32 e 1 % 300 == 0))
        || ((ltb 95 (dat_get_system_var b (index dat_obc_hrs_alive))
              && leb (dat_get_system_var b (index dat_obc_hrs_alive)) 101)
            && (add_32 e 1 % 20 == 0)))
unfolding second
opens_in_windows e at_height b valid range known =
    let m = dat_get_system_var b 2 in
    let b' = change_system_phase b in
    let phase : dat_get_system_var b' (index dat_balloon_phase) ≡ phase_at m =
      phase_follows_minutes b (index dat_balloon_phase) valid (omega arith) range ∙ ground arith in
    opens-requests (add_32 e 1) (dat_get_system_var b' (index dat_balloon_phase)) at_height
    ∙ ap (λ p. ((p == 0) && (add_32 e 1 % 300 == 0)) || ((p == 4) && (add_32 e 1 % 20 == 0))) phase
    ∙ ap₂ (λ x y. (x && (add_32 e 1 % 300 == 0)) || (y && (add_32 e 1 % 20 == 0)))
        ((window m range).0) ((window m range).1)
