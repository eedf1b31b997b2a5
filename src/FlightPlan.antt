-- ===== src/FlightPlan.antt =====
-- The flight plan table of src/system/repoData.c at SCH_STORAGE_MODE 0: `data_base`, an array of
-- `fp_entry_t`, guarded by the mutex `repo_data_fp_sem`.
-- The state holds the array and whether the mutex is taken. An operation ends, blocks for ever on
-- the mutex (`osSemaphoreTake` with portMAX_DELAY on a mutex that nobody gives back), or faults: a
-- string is copied from a pointer that is NULL or freed, a freed pointer is freed again, or
-- `strcpy` writes past the 50 bytes that `malloc` gave. A loop over the array is a recursion on it.
pub mod Slots
pub mod Runs
pub mod Schedule
pub mod Locking
mod Tests
use balloon_suchai_flight_so.Prelude.{
  ℕ, Bool, true, false, List, [], ◌∷◌, Option, none, some, ltb, ◌==◌, if◌then◌else◌, length,
  replicate, ◌&&◌,
}
use balloon_suchai_flight_so.Prelude.Words.{add_32, slt}
use balloon_suchai_flight_so.Prelude.Text.{Text}

-- What a `char *` of the table points to.
pub data Str : Type 0 where
  null freed : Str
  text : Text → Str

-- `fp_entry_t`; a slot with `unixtime` 0 is free.
pub record FpEntry : Type 0 where
  pub unixtime : ℕ
  pub cmd : Str
  pub args : Str
  pub executions : ℕ
  pub periodical : ℕ

abbrev pub Table : Type 0
Table = List FpEntry

-- SCH_FP_MAX_ENTRIES
abbrev pub max_entries : ℕ
max_entries = 25

-- The bytes that `dat_set_fp_async` allocates for each string.
abbrev pub str_size : ℕ
str_size = 50

pub record Plan : Type 0 where
  pub data_base : Table
  pub held : Bool

pub data Outcome (A : Type 0) : Type 0 where
  done : A → Outcome A
  blocked fault : Outcome A

abbrev pub M : Type 0 → Type 0
M A = Plan → Outcome (A × Plan)

infixl 5 ◌>>=◌ ◌>>◌
abbrev pub ◌>>=◌ : {A B : Type 0} → M A → (A → M B) → M B
◌>>=◌ m f p = elim (m p) [ done (a, p') ↦ f a p' | blocked ↦ blocked | fault ↦ fault ]

abbrev pub ◌>>◌ : {A B : Type 0} → M A → M B → M B
m >> k = m >>= λ _. k

abbrev pub pure : {A : Type 0} → A → M A
pure a p = done (a, p)

-- `osSemaphoreTake(&repo_data_fp_sem, portMAX_DELAY)`
unfoldable pub take_sem : M (Unit {0})
take_sem p = if p.held then blocked else done (tt, record p { held = true })

-- `osSemaphoreGiven(&repo_data_fp_sem)`
unfoldable pub given_sem : M (Unit {0})
given_sem p = done (tt, record p { held = false })

abbrev pub empty_slot : FpEntry
empty_slot = record { unixtime = 0; cmd = null; args = null; executions = 0; periodical = 0 }

abbrev pub new_slot : ℕ → Text → Text → ℕ → ℕ → FpEntry
new_slot timetodo command args executions periodical = record {
  unixtime = timetodo;
  cmd = text command;
  args = text args;
  executions = executions;
  periodical = periodical;
}

-- The array with the first free slot filled, or `none` where no slot is free.
unfoldable pub fill_free : FpEntry → Table → Option Table
fill_free e [] = none
fill_free e (s ∷ table) =
    let rest = fill_free e table in
    if s.unixtime == 0
    then some (e ∷ table)
    else elim rest [ none ↦ none | some table' ↦ some (s ∷ table') ]

unfoldable pub dat_set_fp_async : ℕ → Text → Text → ℕ → ℕ → M ℕ
dat_set_fp_async timetodo command args executions periodical p =
    elim (fill_free (new_slot timetodo command args executions periodical) p.data_base) [
      | none ↦ done (1, p)
      | some table ↦
          if ltb (length command) str_size && ltb (length args) str_size
          then done (0, record p { data_base = table })
          else fault
    ]

-- `free`: NULL is allowed, a pointer that was freed before is not.
abbrev pub freeable : Str → Bool
freeable freed = false
freeable _ = true

-- What `dat_del_fp_async` leaves in the slot that it deletes.
abbrev pub cleared : FpEntry
cleared = record { unixtime = 0; cmd = freed; args = freed; executions = 0; periodical = 0 }

unfoldable pub find : ℕ → Table → Option FpEntry
find timetodo [] = none
find timetodo (s ∷ table) =
    let rest = find timetodo table in if timetodo == s.unixtime then some s else rest

-- The array with the first slot of that time deleted.
unfoldable pub clear : ℕ → Table → Table
clear timetodo [] = []
clear timetodo (s ∷ table) =
    let rest = clear timetodo table in if timetodo == s.unixtime then cleared ∷ table else s ∷ rest

-- Where no slot matches, this function gives the mutex back.
unfoldable pub dat_del_fp_async : ℕ → M ℕ
dat_del_fp_async timetodo p = elim (find timetodo p.data_base) [
  | none ↦ (given_sem >> pure 1) p
  | some s ↦
      if freeable s.args && freeable s.cmd
      then done (0, record p { data_base = clear timetodo p.data_base })
      else fault
]

-- What `dat_get_fp` stores through its four pointers.
pub record Job : Type 0 where
  pub command : Text
  pub args : Text
  pub executions : ℕ
  pub periodical : ℕ

-- The slot's strings, as `strcpy` reads them.
unfoldable pub copy_out : FpEntry → M Job
copy_out s p = elim s.cmd [
  | text command ↦ elim s.args [
    | text args ↦ done (
      record {
        command = command;
        args = args;
        executions = s.executions;
        periodical = s.periodical;
      },
      p,
    )
    | _ ↦ fault
  ]
  | _ ↦ fault
]

-- The next run of a periodic job.
unfoldable pub reschedule : ℕ → Job → M ℕ
reschedule elapsed_sec job =
    if slt 0 job.periodical
    then dat_set_fp_async (add_32 elapsed_sec job.periodical) job.command job.args job.executions
        job.periodical
    else pure 0

-- `none` is the code's -1. On the path that finds a job nothing here gives the mutex back.
unfoldable pub dat_get_fp_locked : ℕ → M (Option Job)
dat_get_fp_locked elapsed_sec p = elim (find elapsed_sec p.data_base) [
  | none ↦ (given_sem >> pure none) p
  | some s ↦
      (do
        job ← copy_out s
        reschedule elapsed_sec job
        dat_del_fp_async elapsed_sec
        pure (some job))
        p
]

unfoldable pub dat_get_fp : ℕ → M (Option Job)
dat_get_fp elapsed_sec = take_sem >> dat_get_fp_locked elapsed_sec

unfoldable pub dat_set_fp : ℕ → Text → Text → ℕ → ℕ → M ℕ
dat_set_fp timetodo command args executions periodical = do
  take_sem
  rc ← dat_set_fp_async timetodo command args executions periodical
  given_sem
  pure rc

unfoldable pub dat_del_fp : ℕ → M ℕ
dat_del_fp timetodo = do take_sem; rc ← dat_del_fp_async timetodo; given_sem; pure rc

-- `for(i=0;i<SCH_FP_MAX_ENTRIES;i++)` with every field of `data_base[i]` reset.
unfoldable pub reset_slots : Table → Table
reset_slots [] = []
reset_slots (s ∷ table) = empty_slot ∷ reset_slots table

unfoldable pub dat_reset_fp : M ℕ
dat_reset_fp = do
  take_sem
  (λ p. done (tt, record p { data_base = reset_slots p.data_base }))
  given_sem
  pure 0

-- A line that `dat_show_fp` prints.
pub data Line : Type 0 where
  title : Line
  row : FpEntry → Line
  table_empty : Line

-- The loop of `dat_show_fp`, with `cont`: the title goes before the first row.
unfoldable pub show_rows : ℕ → Table → List Line × ℕ
show_rows cont [] = ([], cont)
show_rows cont (s ∷ table) =
    let (lines, cont') = show_rows (if s.unixtime == 0 then cont else 1) table in
    if s.unixtime == 0
    then (lines, cont')
    else if cont == 0
    then (title ∷ row s ∷ lines, cont')
    else (row s ∷ lines, cont')

unfoldable pub show_lines : Table → List Line
show_lines table =
    let (lines, cont) = show_rows 0 table in if cont == 0 then table_empty ∷ [] else lines

unfoldable pub dat_show_fp : M (List Line × ℕ)
dat_show_fp = do
  take_sem
  lines ← (λ p. done (show_lines p.data_base, p))
  given_sem
  pure (lines, 0)

-- `data_base` as `dat_repo_init` leaves it.
abbrev pub init_table : Table
init_table = replicate max_entries empty_slot
