-- ===== src/Queue.antt =====
-- The queues of src/os/Linux/pthread_queue.c: a ring of places behind a mutex and two conditions.
-- An operation holds the mutex but while it waits, so the part behind the wait is one step. A wait
-- is an input: each time it ends, it says whether `pthread_cond_timedwait` failed, and the queue as
-- the other threads left it. An operation whose wait does not end gives `none`.
pub mod Ring
pub mod Fifo
pub mod Deadline
mod Tests
use balloon_suchai_flight_so.Prelude.{
  ℕ, ◌+◌, ◌-◌, ◌*◌, ◌/◌, ◌%◌, Bool, true, false, List, [], ◌∷◌, Option, none, some, ltb, ◌==◌,
  if◌then◌else◌, get_or, set, replicate,
}

-- `os_pthread_queue_t`; `first` and `next` are its `out` and `in`.
pub record Queue (A : Type 0) : Type 0 where
  pub buffer : List A
  pub size : ℕ
  pub items : ℕ
  pub next : ℕ
  pub first : ℕ

pub data Result : Type 0 where
  queue_ok queue_full queue_empty : Result

-- How a wait ended.
abbrev pub Wake : Type 0 → Type 0
Wake A = Bool × Queue A

-- A deadline, in seconds and nanoseconds, from the present time and a timeout in milliseconds.
unfoldable pub deadline : ℕ → ℕ → ℕ → ℕ × ℕ
deadline tv_sec tv_nsec timeout =
    let sec = timeout / 1000 in
    let nsec = (timeout - 1000 * sec) * 1000000 in
    (
      tv_sec + sec + (if ltb 1000000000 (tv_nsec + nsec) then 1 else 0),
      (tv_nsec + nsec) % 1000000000,
    )

module _ {A : Type 0} (junk : A) where
  -- With `junk` for what `malloc` gave.
  unfoldable pub os_pthread_queue_create : ℕ → Queue A
  os_pthread_queue_create n = record {
    buffer = replicate n junk;
    size = n;
    items = 0;
    next = 0;
    first = 0;
  }

  -- `send` and `receive` behind the wait.
  unfoldable pub put : A → Queue A → Queue A
  put value q = record q {
    buffer = set q.buffer q.next value;
    items = q.items + 1;
    next = (q.next + 1) % q.size;
  }

  unfoldable pub take : Queue A → A × Queue A
  take q = (
    get_or q.buffer q.first junk,
    record q { items = q.items - 1; first = (q.first + 1) % q.size },
  )

  unfoldable pub os_pthread_queue_send : A → List (Wake A) → Queue A → Option (Result × Queue A)
  os_pthread_queue_send value [] q =
      if q.items == q.size then none else some (queue_ok, put value q)
  os_pthread_queue_send value ((failed, q') ∷ wakes) q =
      let again = os_pthread_queue_send value wakes q' in
      if q.items == q.size
      then (if failed then some (queue_full, q') else again)
      else some (queue_ok, put value q)

  unfoldable pub os_pthread_queue_receive :
      List (Wake A) → Queue A → Option (Result × Option A × Queue A)
  os_pthread_queue_receive [] q =
      if q.items == 0 then none else some (queue_ok, some ((take q).0), (take q).1)
  os_pthread_queue_receive ((failed, q') ∷ wakes) q =
      let again = os_pthread_queue_receive wakes q' in
      if q.items == 0
      then (if failed then some (queue_empty, none, q') else again)
      else some (queue_ok, some ((take q).0), (take q).1)
