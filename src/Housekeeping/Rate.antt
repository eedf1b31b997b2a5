-- ===== src/Housekeeping/Rate.antt =====
-- How often `taskHousekeeping` of src/system/taskHousekeeping.c counts a minute.
use balloon_suchai_flight_so.Prelude.{
  ℕ, ◌≡◌, ◌<◌, ◌+◌, ◌/◌, ◌%◌, ◌^◌, ◌==◌, ◌∙◌, refl, ap, Bool, true, false, List, [], ◌∷◌, ◌++◌,
  arith, length, if◌then◌else◌,
}
use balloon_suchai_flight_so.Prelude.Words.{add_32}
use balloon_suchai_flight_so.Status.{Buff}
use balloon_suchai_flight_so.Housekeeping.{Request, asked, requests, second}
use Request.{drp_add_hrs_alive}

-- The requests over seconds in which the other tasks write to the variables: each element is the
-- state of the variables at the start of a second, and the height test.
unfoldable pub among : List (Bool × Buff) → ℕ → List Request
among [] elapsed_sec = []
among ((at_height, b) ∷ bs) elapsed_sec =
    let now = second elapsed_sec at_height b in now.0 ++ among bs (now.1)

unfoldable pub is_minute : Request → ℕ
is_minute drp_add_hrs_alive = 1
is_minute _ = 0

unfoldable pub minutes : List Request → ℕ
minutes [] = 0
minutes (r ∷ rs) = is_minute r + minutes rs

minutes-append : (rs ss : List Request) → minutes (rs ++ ss) ≡ minutes rs + minutes ss
unfolding minutes
minutes-append [] ss = omega arith
minutes-append (r ∷ rs) ss = omega (arith, minutes-append rs ss)

abbrev tally : List (Bool × Request) → ℕ
tally [] = 0
tally ((test, r) ∷ rs) = (if test then is_minute r else 0) + tally rs

minutes-asked : (l : List (Bool × Request)) → minutes (asked l) ≡ tally l
unfolding minutes asked
minutes-asked [] = refl
minutes-asked ((true, r) ∷ rs) = omega (arith, minutes-asked rs)
minutes-asked ((false, r) ∷ rs) = omega (arith, minutes-asked rs)

minutes-requests :
    (e phase : ℕ) (h : Bool) → minutes (requests e phase h) ≡ (if e % 60 == 0 then 1 else 0)
unfolding requests is_minute
minutes-requests e phase h = minutes-asked _ ∙ ground arith

minutes-second :
    (e : ℕ) (h : Bool) (b : Buff)
    → e + 1 < 2 ^ 32
    → (minutes ((second e h b).0) ≡ (if (e + 1) % 60 == 0 then 1 else 0))
      × ((second e h b).1 ≡ e + 1)
unfolding second
minutes-second e h b small = (minutes-requests (add_32 e 1) _ h ∙ ground arith, ground arith)

step_60 : (e : ℕ) → (if (e + 1) % 60 == 0 then 1 else 0) + e / 60 ≡ (e + 1) / 60
step_60 e = ground arith

-- In `n` seconds, whatever the other tasks write and whatever the phase, the minutes alive are
-- counted up once for each whole minute that the seconds counter passes, as long as that counter
-- does not wrap round.
pub minute_rate :
    (bs : List (Bool × Buff)) (elapsed_sec : ℕ)
    → elapsed_sec + length bs < 2 ^ 32
    → minutes (among bs elapsed_sec) + elapsed_sec / 60 ≡ (elapsed_sec + length bs) / 60
unfolding among minutes
minute_rate [] e h = omega arith
minute_rate ((at_height, b) ∷ bs) e h =
    let now = second e at_height b in
    let (sent, next) = minutes-second e at_height b (omega arith) in
    let later = minute_rate bs (now.1) (omega (arith, next)) in
    omega (
      arith,
      minutes-append (now.0) (among bs (now.1)),
      sent,
      next,
      later,
      step_60 e,
      ap (λ n. n / 60) next,
      ap (λ n. (n + length bs) / 60) next,
    )
