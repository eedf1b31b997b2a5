-- ===== src/OsTime/Tests.antt =====
-- The theorems on deadlines and periods at concrete inputs.
use balloon_suchai_flight_so.Prelude.{◌+◌, ◌*◌, ◌%◌, ◌<◌, ◌≡◌, arith, if◌then◌else◌, ◌==◌}
use balloon_suchai_flight_so.Queue.{deadline}
use balloon_suchai_flight_so.OsTime.{lock_deadline}
use balloon_suchai_flight_so.OsTime.Deadline.{lock_deadline_lem}

-- Half a second from half past a second.
lock_deadline_lem_example :
    ((lock_deadline 7 500000000 500).0 * 1000000000 + (lock_deadline 7 500000000 500).1
      ≡ 7 * 1000000000 + 500000000 + 500 * 1000000)
    × ((lock_deadline 7 500000000 500).1 < 1000000000)
    × ((deadline 7 500000000 500).1 ≡ (lock_deadline 7 500000000 500).1)
    × ((deadline 7 500000000 500).0
          + (if 500000000 + 500 % 1000 * 1000000 == 1000000000 then 1 else 0)
        ≡ (lock_deadline 7 500000000 500).0)
lock_deadline_lem_example = lock_deadline_lem 7 500000000 500 (omega arith)
