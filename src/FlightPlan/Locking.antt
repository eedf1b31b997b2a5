-- ===== src/FlightPlan/Locking.antt =====
-- The paths of the flight plan of src/system/repoData.c on which the mutex or the strings go
-- wrong, and those that end at once.
use balloon_suchai_flight_so.Prelude.{
  ℕ, ◌<◌, ◌≤◌, ◌≡◌, ◌≢◌, refl, ap, ◌∙◌, true, false, List, [], ◌∷◌, none, some, arith, length, ◌^◌,
  ◌==◌, ◌⊎◌, inl, inr, Bool-cases,
}
use balloon_suchai_flight_so.Prelude.Words.{add_32}
use balloon_suchai_flight_so.Prelude.Text.{Text}
use balloon_suchai_flight_so.FlightPlan.{
  Table, Plan, done, blocked, fault, str_size, take_sem, given_sem, new_slot, fill_free, find,
  dat_get_fp_locked, dat_get_fp, dat_set_fp, dat_del_fp, dat_set_fp_async, dat_reset_fp,
  dat_show_fp, reset_slots, Line, title, row, table_empty, show_rows, show_lines,
}
use balloon_suchai_flight_so.FlightPlan.Slots.{
  Timed, job_of, pending, free_slots, AllSound, due, find-none-due, fill_free-some,
}
use balloon_suchai_flight_so.FlightPlan.Runs.{
  bind_done, bind_blocked, bind_fault, take_free, take_held, given_done, fetched,
}
use balloon_suchai_flight_so.FlightPlan.Schedule.{get_fp_runs}

-- A call of the flight plan's interface.
pub data Call : Type 0 where
  get del : ℕ → Call
  set : ℕ → Text → Text → ℕ → ℕ → Call
  reset show : Call

-- The call never comes back.
abbrev pub Blocks : Call → Plan → Type 0
Blocks (get t) p = dat_get_fp t p ≡ blocked
Blocks (del t) p = dat_del_fp t p ≡ blocked
Blocks (set t c a e d) p = dat_set_fp t c a e d p ≡ blocked
Blocks reset p = dat_reset_fp p ≡ blocked
Blocks show p = dat_show_fp p ≡ blocked

pub held-Blocks : (c : Call) (p : Plan) → p.held ≡ true → Blocks c p
unfolding dat_get_fp dat_del_fp dat_set_fp dat_reset_fp dat_show_fp
held-Blocks (get t) p h = bind_blocked take_sem _ p (take_held p h)
held-Blocks (del t) p h = bind_blocked take_sem _ p (take_held p h)
held-Blocks (set t c a e d) p h = bind_blocked take_sem _ p (take_held p h)
held-Blocks reset p h = bind_blocked take_sem _ p (take_held p h)
held-Blocks show p h = bind_blocked take_sem _ p (take_held p h)

-- With the mutex free, sound slots and times that are not 0 and fit in 32 bits, after a
-- `dat_get_fp` that found a job, every call of the flight plan blocks for ever.
pub get_fp_deadlocks :
    (t : ℕ) (p : Plan) (j : Timed) (c : Call)
    → p.held ≡ false
    → t ≢ 0
    → t < 2 ^ 32
    → j.periodical < 2 ^ 32
    → add_32 t j.periodical ≢ 0
    → AllSound p.data_base
    → due t (pending p.data_base) ≡ some j
    → (p' : Plan) × (dat_get_fp t p ≡ done (some (fetched j), p')) × Blocks c p'
get_fp_deadlocks t p j c free nz ht hp next sound h =
    let (p', runs, held, _, _) = get_fp_runs t p j free nz ht hp next sound h in
    (p', runs, held-Blocks c p' held)

locked_absent :
    (t : ℕ) (p : Plan)
    → find t p.data_base ≡ none
    → dat_get_fp_locked t p ≡ done (none, record p { held = false })
unfolding dat_get_fp_locked given_sem
locked_absent t p q = rw (q, dat_get_fp_locked) refl

-- With the mutex free and a time that is not 0 and that no waiting job has, `dat_get_fp` returns
-- -1, changes nothing and gives the mutex back.
get_fp_absent :
    (t : ℕ) (p : Plan)
    → p.held ≡ false
    → t ≢ 0
    → due t (pending p.data_base) ≡ none
    → dat_get_fp t p ≡ done (none, p)
unfolding dat_get_fp
get_fp_absent t p free nz h =
    bind_done take_sem _ p (take_free p free)
    ∙ locked_absent t (record p { held = true }) (find-none-due t p.data_base nz h)
    ∙ ground arith

set_async_overflow :
    (t : ℕ) (c a : Text) (e d : ℕ) (p : Plan) {table : Table}
    → fill_free (new_slot t c a e d) p.data_base ≡ some table
    → (str_size ≤ length c) ⊎ (str_size ≤ length a)
    → dat_set_fp_async t c a e d p ≡ fault
unfolding dat_set_fp_async
set_async_overflow t c a e d p q long = ground arith

-- With the mutex free and a free slot, `dat_set_fp` faults on a command or arguments of 50 bytes or
-- more: `strcpy` writes past what `malloc` gave.
pub set_fp_overflows :
    (t : ℕ) (command args : Text) (executions periodical : ℕ) (p : Plan)
    → p.held ≡ false
    → 0 < free_slots p.data_base
    → (str_size ≤ length command) ⊎ (str_size ≤ length args)
    → dat_set_fp t command args executions periodical p ≡ fault
unfolding dat_set_fp
set_fp_overflows t c a e d p free room long =
    bind_done take_sem _ p (take_free p free)
    ∙ bind_fault (dat_set_fp_async t c a e d) _ (record p { held = true })
        (set_async_overflow t c a e d (record p { held = true })
          (fill_free-some (new_slot t c a e d) p.data_base room).1 long)

pending-reset_slots : (table : Table) → pending (reset_slots table) ≡ []
unfolding pending reset_slots
pending-reset_slots [] = refl
pending-reset_slots (s ∷ table) = pending-reset_slots table

free_slots-reset_slots : (table : Table) → free_slots (reset_slots table) ≡ length table
unfolding free_slots reset_slots
free_slots-reset_slots [] = refl
free_slots-reset_slots (s ∷ table) = omega (arith, free_slots-reset_slots table)

-- With the mutex free, `dat_reset_fp` returns 0 with no job waiting, every slot free and the mutex
-- given back.
reset_fp_empties :
    (p : Plan)
    → p.held ≡ false
    → (p' : Plan) × (dat_reset_fp p ≡ done (0, p'))
      × (p'.held ≡ false)
      × (pending p'.data_base ≡ [])
      × (free_slots p'.data_base ≡ length p.data_base)
unfolding dat_reset_fp
reset_fp_empties p free = (
  record { data_base = reset_slots p.data_base; held = false },
  bind_done take_sem _ p (take_free p free)
      ∙ bind_done given_sem _ (record { data_base = reset_slots p.data_base; held = true })
          (given_done _),
  refl,
  pending-reset_slots p.data_base,
  free_slots-reset_slots p.data_base,
)

-- The slots that the printed lines show.
abbrev pub shown : List Line → List Timed
shown [] = []
shown (title ∷ lines) = shown lines
shown (row s ∷ lines) = job_of s ∷ shown lines
shown (table_empty ∷ lines) = shown lines

shown-show_rows : (cont : ℕ) (table : Table) → shown (show_rows cont table).0 ≡ pending table
unfolding show_rows pending
shown-show_rows cont [] = refl
shown-show_rows cont (s ∷ table) = elim (Bool-cases (s.unixtime == 0)) [
  | inl free ↦ rw free (shown-show_rows cont table)
  | inr used ↦ elim (Bool-cases (cont == 0)) [
    | inl first ↦ rw (used, first) (ap (◌∷◌ (job_of s)) (shown-show_rows 1 table))
    | inr later ↦ rw (used, later) (ap (◌∷◌ (job_of s)) (shown-show_rows 1 table))
  ]
]

show_rows-later : (table : Table) → (show_rows 1 table).1 ≡ 1
unfolding show_rows
show_rows-later [] = refl
show_rows-later (s ∷ table) = elim (Bool-cases (s.unixtime == 0)) [
  | inl free ↦ rw free (show_rows-later table)
  | inr used ↦ rw used (show_rows-later table)
]

-- Whether the title was printed says whether a slot is in use.
show_rows-title :
    (table : Table)
    → ((pending table ≡ []) × ((show_rows 0 table).1 ≡ 0))
      ⊎ ((pending table ≢ [])
          × ((show_rows 0 table).1 ≡ 1)
          × ((lines : List Line) × ((show_rows 0 table).0 ≡ title ∷ lines)))
unfolding show_rows pending
show_rows-title [] = inl (refl, refl)
show_rows-title (s ∷ table) = elim (Bool-cases (s.unixtime == 0)) [
  | inl free ↦ rw free (show_rows-title table)
  | inr used ↦ rw used (inr (λ e. cc, show_rows-later table, (row s ∷ (show_rows 1 table).0, refl)))
]

-- The lines that `dat_show_fp` prints show the waiting jobs in the table's order. Of a table with
-- none they say that it is empty; otherwise the title comes first.
show_lines_lem :
    (table : Table)
    → (shown (show_lines table) ≡ pending table)
      × (((pending table ≡ []) × (show_lines table ≡ table_empty ∷ []))
          ⊎ ((pending table ≢ []) × ((lines : List Line) × (show_lines table ≡ title ∷ lines))))
unfolding show_lines
show_lines_lem table = elim (show_rows-title table) [
  | inl (e, c) ↦ (rw (c, e) refl, inl (e, rw c refl))
  | inr (ne, c, (lines, q)) ↦ (rw c (shown-show_rows 0 table), inr (ne, (lines, rw c q)))
]
