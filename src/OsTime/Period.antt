-- ===== src/OsTime/Period.antt =====
-- The period of src/os/Linux/osDelay.c, with ticks that go round at 2 ^ 32 microseconds.
use balloon_suchai_flight_so.Prelude.{
  ℕ, ◌+◌, ◌-◌, ◌*◌, ◌%◌, ◌/◌, ◌<◌, ◌≤◌, ◌^◌, ◌≡◌, refl, ap, arith, none, some, ltb, if◌then◌else◌,
  inl, inr, Bool-cases,
}
use balloon_suchai_flight_so.Prelude.Words.{u32_mod, sub_32}
use balloon_suchai_flight_so.OsTime.{os_task_delay_until, os_define_time, os_delay}

since : (last e : ℕ) → last < 2 ^ 32 → e < 2 ^ 32 → sub_32 ((last + e) % u32_mod) last ≡ e
since last e hl he = ground arith

overrun :
    (last e s d : ℕ)
    → last < 2 ^ 32
    → s ≤ e
    → e + d < 2 ^ 32
    → sub_32 ((last + e + d) % u32_mod) (sub_32 e s) ≡ (last + s + d) % u32_mod
overrun last e s d hl hs he = ground arith

-- `e` microseconds after the last time, with a period below 2 ^ 32 microseconds and the clock read
-- again `d` later, and both together below 2 ^ 32, also where the ticks go round in between: where
-- the period is over, the task does not sleep, and the new last time is one period after the old
-- one, and `d`, so that what it is late is made up for later; else it sleeps the whole milliseconds
-- that are left of the period, and the new last time is the present one.
pub os_task_delay_until_lem :
    (last e mseconds d : ℕ)
    → last < 2 ^ 32
    → mseconds * 1000 < 2 ^ 32
    → e + d < 2 ^ 32
    → os_task_delay_until last mseconds ((last + e) % u32_mod) ((last + e + d) % u32_mod) ≡ (
        if ltb (mseconds * 1000) e
        then (none, (last + mseconds * 1000 + d) % u32_mod)
        else (some ((mseconds * 1000 - e) / 1000 * 1000), (last + e + d) % u32_mod))
unfolding os_task_delay_until os_define_time os_delay
os_task_delay_until_lem last e mseconds d hl hm he =
    let gone = since last e hl (omega arith) in
    let s : mseconds * 1000 % u32_mod ≡ mseconds * 1000 = ground arith in
    elim (Bool-cases (ltb (mseconds * 1000) e)) [
      | inl late ↦
          let shifted = overrun last e (mseconds * 1000) d hl (ground (arith, late)) he in
          rw (gone, s, late) (ap (λ x. (none, x)) shifted)
      | inr early ↦
          let left : sub_32 (mseconds * 1000) e / 1000 * 1000 % u32_mod
              ≡ (mseconds * 1000 - e) / 1000 * 1000 =
            ground (arith, early) in
          rw (gone, s, early, left) refl
    ]
