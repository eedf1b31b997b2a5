-- ===== src/OsTime.antt =====
-- The mutexes and delays of Linux: src/os/Linux/osSemphr.c and src/os/Linux/osDelay.c. The clocks and
-- the pthread library are not part of the repository and are parameters: what the clock gives, and
-- the results of the calls.
mod Deadline
mod Period
mod Tests
use balloon_suchai_flight_so.Prelude.{
  ℕ, ◌+◌, ◌-◌, ◌*◌, ◌/◌, ◌%◌, Option, none, some, ltb, leb, ◌==◌, if◌then◌else◌,
}
use balloon_suchai_flight_so.Prelude.Words.{u32_mod, sub_32, minus_one}

-- portMAX_DELAY, CSP_SEMAPHORE_OK and CSP_SEMAPHORE_ERROR
abbrev pub port_max_delay : ℕ
port_max_delay = minus_one

abbrev pub semaphore_ok : ℕ
semaphore_ok = 1

abbrev pub semaphore_error : ℕ
semaphore_error = 2

-- By the result of `pthread_mutex_init`, and of `pthread_mutex_unlock`.
unfoldable pub os_semaphore_create : ℕ → ℕ
os_semaphore_create ret = if ret == 0 then semaphore_ok else semaphore_error

unfoldable pub os_semaphore_given : ℕ → ℕ
os_semaphore_given ret = if ret == 0 then semaphore_ok else semaphore_error

-- `ts` after the sums: seconds and nanoseconds.
unfoldable pub lock_deadline : ℕ → ℕ → ℕ → ℕ × ℕ
lock_deadline tv_sec tv_nsec timeout =
    let sec = timeout / 1000 in
    let nsec = (timeout - 1000 * sec) * 1000000 in
    (
      tv_sec + sec + (if leb 1000000000 (tv_nsec + nsec) then 1 else 0),
      (tv_nsec + nsec) % 1000000000,
    )

-- `clock_gettime` gives `none` where it fails; `lock` and `timedlock` are the results of
-- `pthread_mutex_lock` and, by the deadline, of `pthread_mutex_timedlock`.
unfoldable pub os_semaphore_take : Option (ℕ × ℕ) → ℕ → (ℕ × ℕ → ℕ) → ℕ → ℕ
os_semaphore_take clock_gettime lock timedlock timeout =
    if timeout == port_max_delay
    then (if lock == 0 then semaphore_ok else semaphore_error)
    else elim clock_gettime [
      | none ↦ semaphore_error
      | some (tv_sec, tv_nsec) ↦
          if timedlock (lock_deadline tv_sec tv_nsec timeout) == 0
          then semaphore_ok
          else semaphore_error
    ]

unfoldable pub os_define_time : ℕ → ℕ
os_define_time mseconds = mseconds * 1000 % u32_mod

-- The ticks, in microseconds, by the clock's seconds and nanoseconds.
unfoldable pub os_task_get_tick_count : ℕ × ℕ → ℕ
os_task_get_tick_count (tv_sec, tv_nsec) = (tv_sec * 1000000 + tv_nsec / 1000) % u32_mod

-- The microseconds that `usleep` is asked for.
unfoldable pub os_delay : ℕ → ℕ
os_delay mseconds = mseconds * 1000 % u32_mod

-- The microseconds slept, `none` where there is no sleep, and the new `*lastTime`; `c_usec` and
-- `later` are the ticks at the two reads of the clock.
unfoldable pub os_task_delay_until : ℕ → ℕ → ℕ → ℕ → Option ℕ × ℕ
os_task_delay_until last_time mseconds c_usec later =
    let d_usec = sub_32 c_usec last_time in
    let s_usec = os_define_time mseconds in
    if ltb s_usec d_usec
    then (none, sub_32 later (sub_32 d_usec s_usec))
    else (some (os_delay (sub_32 s_usec d_usec / 1000)), later)
