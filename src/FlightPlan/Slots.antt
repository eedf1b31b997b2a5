-- ===== src/FlightPlan/Slots.antt =====
-- The array of the flight plan of src/system/repoData.c: what its loops do to the jobs that wait.
use balloon_suchai_flight_so.Prelude.{
  ℕ, suc, ◌<◌, ◌≡◌, ◌≢◌, ◌⊎◌, inl, inr, refl, subst, Option, List, [], ◌∷◌, none, some, arith, ◌==◌,
  if◌then◌else◌, length, Perm, Bool-cases, Option-cases,
}
use mathlib.Core.List.Perm
use balloon_suchai_flight_so.Prelude.Text.{Text}
use balloon_suchai_flight_so.FlightPlan.{
  Str, null, freed, text, FpEntry, Table, str_size, fill_free, find, clear, cleared,
}

-- A job with its time, as the table promises to run it.
pub record Timed : Type 0 where
  pub time : ℕ
  pub command : Text
  pub args : Text
  pub executions : ℕ
  pub periodical : ℕ

abbrev pub text_of : Str → Text
text_of (text t) = t
text_of null = []
text_of freed = []

abbrev pub job_of : FpEntry → Timed
job_of s = record {
  time = s.unixtime;
  command = text_of s.cmd;
  args = text_of s.args;
  executions = s.executions;
  periodical = s.periodical;
}

-- The jobs that wait in the table.
unfoldable pub pending : Table → List Timed
pending [] = []
pending (s ∷ table) = let rest = pending table in if s.unixtime == 0 then rest else job_of s ∷ rest

unfoldable pub free_slots : Table → ℕ
free_slots [] = 0
free_slots (s ∷ table) = let rest = free_slots table in if s.unixtime == 0 then suc rest else rest

-- A string that the table owns, within its allocation.
abbrev pub Owned : Str → Type 0
Owned (text t) = length t < str_size
Owned null = ⊥
Owned freed = ⊥

-- A slot in use owns its two strings.
abbrev pub IsSound : FpEntry → Type 0
IsSound s = (s.unixtime ≡ 0) ⊎ (Owned s.cmd × Owned s.args)

abbrev pub AllSound : Table → Type 0
AllSound [] = Unit {0}
AllSound (s ∷ table) = IsSound s × AllSound table

-- A full table refuses a job.
pub fill_free-none : (e : FpEntry) (table : Table) → free_slots table ≡ 0 → fill_free e table ≡ none
unfolding fill_free free_slots
fill_free-none e [] h = refl
fill_free-none e (s ∷ table) h = ground (arith, fill_free-none e table)

pub fill_free-some :
    (e : FpEntry) (table : Table)
    → 0 < free_slots table
    → (table' : Table) × (fill_free e table ≡ some table')
unfolding fill_free free_slots
fill_free-some e [] h = absurd (omega arith)
fill_free-some e (s ∷ table) h = elim (Bool-cases (s.unixtime == 0)) [
  | inl free ↦ (e ∷ table, ground arith)
  | inr used ↦
      let (table', q) = fill_free-some e table (ground arith) in (s ∷ table', ground (arith, q))
]

-- The two ways in which the loop that looks for a free slot goes on.
pub data Fill (e s : FpEntry) (table table' : Table) : Type 0 where
  hit : s.unixtime ≡ 0 → table' ≡ e ∷ table → Fill e s table table'
  miss :
      (rest : Table)
      → s.unixtime ≢ 0
      → fill_free e table ≡ some rest
      → table' ≡ s ∷ rest
      → Fill e s table table'

pub fill_free-Fill :
    (e s : FpEntry) (table : Table) {table' : Table}
    → fill_free e (s ∷ table) ≡ some table'
    → Fill e s table table'
unfolding fill_free
fill_free-Fill e s table {table'} h = elim (Bool-cases (s.unixtime == 0)) [
  | inl z ↦ hit (ground arith) (ground arith)
  | inr nz ↦ elim (Option-cases (fill_free e table)) [
    | inl q ↦ absurd (ground arith)
    | inr (rest, q) ↦ miss rest (ground arith) q (ground arith)
  ]
]

pub pending-used :
    (s : FpEntry) (table : Table) → s.unixtime ≢ 0 → pending (s ∷ table) ≡ job_of s ∷ pending table
unfolding pending
pending-used s table nz = ground arith

pending-unused :
    (s : FpEntry) (table : Table) → s.unixtime ≡ 0 → pending (s ∷ table) ≡ pending table
unfolding pending
pending-unused s table z = ground arith

-- Filling a free slot adds one job and keeps the others.
pub pending-fill_free :
    (e : FpEntry) (table : Table) {table' : Table}
    → e.unixtime ≢ 0
    → fill_free e table ≡ some table'
    → Perm (pending table') (job_of e ∷ pending table)
unfolding fill_free
pending-fill_free e [] ne h = cc
pending-fill_free e (s ∷ table) ne h = elim (fill_free-Fill e s table h) [
  | hit z q ↦ rw (q, pending-used e table ne, pending-unused s table z) (Perm.refl _)
  | miss rest nz r q ↦
      rw (q, pending-used s rest nz, pending-used s table nz)
        (Perm.trans (Perm.cons (job_of s) (pending-fill_free e table ne r))
          (Perm.swap (job_of e) (job_of s) (pending table)))
]

pub fill_free-AllSound :
    (e : FpEntry) (table : Table) {table' : Table}
    → IsSound e
    → AllSound table
    → fill_free e table ≡ some table'
    → AllSound table'
unfolding fill_free
fill_free-AllSound e [] se st h = cc
fill_free-AllSound e (s ∷ table) se st h = elim (fill_free-Fill e s table h) [
  | hit z q ↦ rw q (se, st.1)
  | miss rest nz r q ↦ rw q (st.0, fill_free-AllSound e table se st.1 r)
]

-- Another job's time finds the same slot before and after.
pub find-fill_free :
    (e : FpEntry) (table : Table) (t : ℕ) {table' : Table}
    → e.unixtime ≢ t
    → t ≢ 0
    → fill_free e table ≡ some table'
    → find t table' ≡ find t table
unfolding fill_free find
find-fill_free e [] t ne nz h = cc
find-fill_free e (s ∷ table) t ne nz h = elim (fill_free-Fill e s table h) [
  | hit z q ↦ rw q (ground arith)
  | miss rest nz' r q ↦ rw q (ground (arith, find-fill_free e table t ne nz r))
]

-- The slot that `find` gives is the first or lies behind it.
find-cases :
    (t : ℕ) (x : FpEntry) (table : Table) {s : FpEntry}
    → find t (x ∷ table) ≡ some s
    → ((x.unixtime ≡ t) × (x ≡ s) × (clear t (x ∷ table) ≡ cleared ∷ table))
      ⊎ ((x.unixtime ≢ t) × (find t table ≡ some s) × (clear t (x ∷ table) ≡ x ∷ clear t table))
unfolding find clear
find-cases t x table h = elim (Bool-cases (t == x.unixtime)) [
  | inl eq ↦ inl (ground arith, ground arith, ground arith)
  | inr ne ↦ inr (ground arith, ground arith, ground arith)
]

-- The slot that `find` gives has that time and, in a sound table, owns its strings.
pub find-some :
    (t : ℕ) (table : Table) {s : FpEntry}
    → AllSound table
    → find t table ≡ some s
    → (s.unixtime ≡ t) × IsSound s
unfolding find
find-some t [] h e = cc
find-some t (x ∷ table) h e = elim (find-cases t x table e) [
  | inl (eq, same, _) ↦ subst (λ y. (y.unixtime ≡ t) × IsSound y) same (eq, h.0)
  | inr (_, later, _) ↦ find-some t table h.1 later
]

-- Deleting the first slot of a time takes away one job, the one that `find` gives.
pub pending-clear :
    (t : ℕ) (table : Table) {s : FpEntry}
    → t ≢ 0
    → find t table ≡ some s
    → Perm (pending table) (job_of s ∷ pending (clear t table))
unfolding find
pending-clear t [] nz h = cc
pending-clear t (x ∷ table) {s} nz h = elim (find-cases t x table h) [
  | inl (eq, same, q) ↦
      rw (q, pending-unused cleared table refl, pending-used x table (rw eq nz), same) (Perm.refl _)
  | inr (ne, later, q) ↦ elim (Bool-cases (x.unixtime == 0)) [
    | inl z ↦
        rw
          (
            q,
            pending-unused x (clear t table) (ground arith),
            pending-unused x table (ground arith),
          )
          (pending-clear t table nz later)
    | inr u ↦
        rw (q, pending-used x (clear t table) (ground arith), pending-used x table (ground arith))
          (Perm.trans (Perm.cons (job_of x) (pending-clear t table nz later))
            (Perm.swap (job_of s) (job_of x) (pending (clear t table))))
  ]
]

pub clear-AllSound : (t : ℕ) (table : Table) → AllSound table → AllSound (clear t table)
unfolding clear
clear-AllSound t [] h = tt
clear-AllSound t (s ∷ table) h = ground (arith, clear-AllSound t table)

-- The first job of a time.
unfoldable pub due : ℕ → List Timed → Option Timed
due t [] = none
due t (j ∷ jobs) = let rest = due t jobs in if t == j.time then some j else rest

-- The loop that looks for a time finds the slot of the first job of that time.
pub find-due :
    (t : ℕ) (table : Table) {j : Timed}
    → t ≢ 0
    → due t (pending table) ≡ some j
    → (s : FpEntry) × (find t table ≡ some s) × (job_of s ≡ j)
unfolding find pending due
find-due t [] nz h = cc
find-due t (s ∷ table) nz h = elim (Bool-cases (t == s.unixtime)) [
  | inl eq ↦ (s, rw eq, ground arith)
  | inr ne ↦ let (r, q, e) = find-due t table nz (ground arith) in (r, rw ne q, e)
]

pub find-none-due :
    (t : ℕ) (table : Table) → t ≢ 0 → due t (pending table) ≡ none → find t table ≡ none
unfolding find pending due
find-none-due t [] nz h = refl
find-none-due t (s ∷ table) nz h = ground (arith, find-none-due t table nz)

pub find-Owned :
    (t : ℕ) (table : Table) {s : FpEntry}
    → t ≢ 0
    → AllSound table
    → find t table ≡ some s
    → Owned s.cmd × Owned s.args
find-Owned t table {s} nz sound q = ground (arith, find-some t table sound q)
