-- ===== src/OsTime/Deadline.antt =====
-- The deadlines of src/os/Linux/osSemphr.c, beside those of src/os/Linux/pthread_queue.c.
use balloon_suchai_flight_so.Prelude.{ℕ, ◌+◌, ◌*◌, ◌%◌, ◌<◌, ◌≡◌, arith, ◌==◌, if◌then◌else◌}
use balloon_suchai_flight_so.Queue.{deadline}
use balloon_suchai_flight_so.OsTime.{lock_deadline}

-- From a present time with less than a second of nanoseconds: the deadline of a mutex is that time
-- and the timeout together, in nanoseconds, with less than a second of nanoseconds. The deadline of
-- a queue has the same nanoseconds, and is one second earlier where the nanoseconds of the time and
-- of the timeout come to one second exactly, and else the same.
pub lock_deadline_lem :
    (tv_sec tv_nsec timeout : ℕ)
    → tv_nsec < 1000000000
    → ((lock_deadline tv_sec tv_nsec timeout).0 * 1000000000
          + (lock_deadline tv_sec tv_nsec timeout).1
        ≡ tv_sec * 1000000000 + tv_nsec + timeout * 1000000)
      × ((lock_deadline tv_sec tv_nsec timeout).1 < 1000000000)
      × ((deadline tv_sec tv_nsec timeout).1 ≡ (lock_deadline tv_sec tv_nsec timeout).1)
      × ((deadline tv_sec tv_nsec timeout).0
            + (if tv_nsec + timeout % 1000 * 1000000 == 1000000000 then 1 else 0)
          ≡ (lock_deadline tv_sec tv_nsec timeout).0)
unfolding deadline lock_deadline
lock_deadline_lem s n t h = (ground arith, ground arith, ground arith, ground arith)
