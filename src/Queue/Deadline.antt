-- ===== src/Queue/Deadline.antt =====
-- The deadlines of src/os/Linux/pthread_queue.c.
use balloon_suchai_flight_so.Prelude.{ℕ, ◌+◌, ◌*◌, ◌%◌, ◌<◌, ◌≡◌, arith, ◌==◌, if◌then◌else◌}
use balloon_suchai_flight_so.Queue.{deadline}

-- From a present time with less than a second of nanoseconds, the deadline is that time and the
-- timeout together, in nanoseconds, but for a second that is lost where the nanoseconds of both
-- come to one second exactly.
deadline_lem :
    (tv_sec tv_nsec timeout : ℕ)
    → tv_nsec < 1000000000
    → (deadline tv_sec tv_nsec timeout).0 * 1000000000
        + (deadline tv_sec tv_nsec timeout).1
        + (if tv_nsec + timeout % 1000 * 1000000 == 1000000000 then 1000000000 else 0)
      ≡ tv_sec * 1000000000 + tv_nsec + timeout * 1000000
unfolding deadline
deadline_lem s n t h = ground arith
