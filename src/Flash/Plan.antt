-- ===== src/Flash/Plan.antt =====
-- The flight plan in the flash, of src/drivers/nanomind/data_storage.c. An entry has 148 bytes: the
-- time, four numbers, and two strings of at most 64 bytes. `word` and `number` are the machine's
-- order of the four bytes of a number. A string is its bytes before the NUL.
use balloon_suchai_flight_so.Prelude.{
  ℕ, zero, suc, ◌+◌, ◌*◌, ◌/◌, ◌%◌, Bool, not, ◌&&◌, ◌||◌, List, [], ◌∷◌, ◌++◌, Option, none, some,
  ltb, ◌==◌, if◌then◌else◌, length, get_or,
}
use balloon_suchai_flight_so.Prelude.Upto.{upto}
use balloon_suchai_flight_so.Prelude.Words.{u32_mod, add_32, sub_32, slt, sle, minus_one}
use balloon_suchai_flight_so.Status.{Buff, dat_set_system_var, dat_get_system_var}
use balloon_suchai_flight_so.Status.Vars.{index}
use balloon_suchai_flight_so.Status.Vars.DatSystem.{dat_fpl_queue}
use balloon_suchai_flight_so.Telemetry.{quotient}
use balloon_suchai_flight_so.FlightPlan.{Job}
use balloon_suchai_flight_so.Flash.{
  Flash, Addresses, size_per_section, fp_max_entries, max_command_size, remainder, read_data,
}

abbrev pub commands_per_section : ℕ
commands_per_section = size_per_section / max_command_size

-- The flash and the status variables.
pub record Store (F : Type 0) : Type 0 where
  pub flash_state : F
  pub buff : Buff

abbrev pub queue : {F : Type 0} → Store F → ℕ
queue st = dat_get_system_var st.buff (index dat_fpl_queue)

abbrev pub set_queue : {F : Type 0} → ℕ → Store F → Store F
set_queue n st = record st { buff = dat_set_system_var st.buff (index dat_fpl_queue) n }

abbrev pub rounds_of : ℕ → ℕ
rounds_of n = if slt 0 n then n else 0

-- The address of a section, and of an entry; `none` is an access outside the array.
unfoldable pub section_address : Addresses → ℕ → Option ℕ
section_address addresses section_index =
    if ltb section_index (length addresses.flight_plan)
    then some (get_or addresses.flight_plan section_index 0)
    else none

unfoldable pub slot_address : Addresses → ℕ → Option ℕ
slot_address addresses i = elim (section_address addresses (quotient i commands_per_section)) [
  | none ↦ none
  | some start ↦ some ((start + remainder i commands_per_section * max_command_size) % u32_mod)
]

-- A result: -1 or 0, with the store as the function left it.
abbrev pub Outcome : Type 0 → Type 0
Outcome F = Option (ℕ × Store F)

module _ {F : Type 0} (flash : Flash F) (addresses : Addresses) (word : ℕ → List ℕ)
    (number : List ℕ → ℕ) where
  abbrev pub read : ℕ → ℕ → F → List ℕ
  read add len f = read_data flash addresses add len f

  -- The loop of `flight_plan_find_index` from `i`.
  unfoldable pub find_from : ℕ → ℕ → ℕ → F → Option ℕ
  find_from timetodo i zero f = some minus_one
  find_from timetodo i (suc rounds) f =
      let rest = find_from timetodo (i + 1) rounds f in
      elim (slot_address addresses i) [
        | none ↦ none
        | some add ↦ if number (read add 4 f) == timetodo then some i else rest
      ]

  unfoldable pub flight_plan_find_index : ℕ → Store F → Option ℕ
  flight_plan_find_index timetodo st = find_from timetodo 0 (rounds_of (queue st)) st.flash_state

  -- The loop that writes the entries back, from entry `i` of `section_data` on: the number written,
  -- whether a write failed, and the flash.
  unfoldable pub rewrite_from : (ℕ → ℕ) → ℕ → ℕ → ℕ → ℕ → ℕ → F → ℕ × Bool × F
  rewrite_from section_data index_in_section i zero add written f = (written, Bool.false, f)
  rewrite_from section_data index_in_section i (suc rounds) add written f =
      let entry = upto section_data (i * max_command_size) max_command_size in
      let timetodo = number (upto section_data (i * max_command_size) 4) in
      let (rc, f') = flash.write_data add entry f in
      let next =
        rewrite_from section_data index_in_section (i + 1) rounds
          ((add + max_command_size) % u32_mod) (written + 1) f' in
      let skipped = rewrite_from section_data index_in_section (i + 1) rounds add written f in
      if not (i == index_in_section) && not (timetodo == 0)
      then (if rc == 0 then next else (written, Bool.true, f'))
      else skipped

  unfoldable pub flight_plan_erase_index : ℕ → Store F → Outcome F
  flight_plan_erase_index i st =
      let entries = queue st in
      if slt i 0 || sle entries i
      then some (minus_one, st)
      else elim (section_address addresses (quotient i commands_per_section)) [
        | none ↦ none
        | some add ↦
            let section_data = λ (k : ℕ). flash.byte (add + k) st.flash_state in
            let (rc, f) = flash.erase_block add st.flash_state in
            let (written, failed, f') =
              rewrite_from section_data (remainder i commands_per_section) 0 (rounds_of entries) add
                0 f in
            if rc == 0
            then some (
              if failed then minus_one else 0,
              set_queue written (record st { flash_state = f' }),
            )
            else some (minus_one, record st { flash_state = f })
      ]

  -- The writes of `storage_flight_plan_set` one after the other, until one fails: whether all
  -- succeeded, and the flash.
  unfoldable pub write_all : List (ℕ × List ℕ) → F → Bool × F
  write_all [] f = (Bool.true, f)
  write_all ((add, bytes) ∷ writes) f =
      let (rc, f') = flash.write_data add bytes f in
      let rest = write_all writes f' in if rc == 0 then rest else (Bool.false, f')

  -- The places and the bytes of an entry's four writes.
  abbrev pub entry_writes : ℕ → ℕ → Job → List (ℕ × List ℕ)
  entry_writes add timetodo job =
      (add, word timetodo)
      ∷ (
        (add + 4) % u32_mod,
        word job.executions
            ++ (word job.periodical ++ (word (length job.command) ++ word (length job.args))),
      )
      ∷ ((add + 20) % u32_mod, job.command)
      ∷ ((add + 84) % u32_mod, job.args)
      ∷ []

  unfoldable pub storage_flight_plan_set : ℕ → Job → Store F → Outcome F
  storage_flight_plan_set timetodo job st =
      let entries = queue st in
      if sle fp_max_entries entries
      then some (minus_one, st)
      else elim (slot_address addresses entries) [
        | none ↦ none
        | some add ↦
            let (all, f) = write_all (entry_writes add timetodo job) st.flash_state in
            let st' = record st { flash_state = f } in
            some (if all then (0, set_queue (add_32 entries 1) st') else (minus_one, st'))
      ]

  -- The job that the entry at an address holds.
  unfoldable pub read_job : ℕ → F → Job
  read_job add f = record {
    command = read ((add + 20) % u32_mod) (number (read ((add + 12) % u32_mod) 4 f)) f;
    args = read ((add + 84) % u32_mod) (number (read ((add + 16) % u32_mod) 4 f)) f;
    executions = number (read ((add + 4) % u32_mod) 4 f);
    periodical = number (read ((add + 8) % u32_mod) 4 f);
  }

  -- The result, the job that is stored through the pointers where one was found, and the store.
  unfoldable pub storage_flight_plan_get : ℕ → Store F → Option (ℕ × Option Job × Store F)
  storage_flight_plan_get timetodo st = elim (flight_plan_find_index timetodo st) [
    | none ↦ none
    | some i ↦ if slt i 0 then some (minus_one, none, st) else elim (slot_address addresses i) [
      | none ↦ none
      | some add ↦
          let job = read_job add st.flash_state in
          elim (flight_plan_erase_index i st) [
            | none ↦ none
            | some (rc, st') ↦
                if not (rc == 0)
                then some (minus_one, some job, st')
                else if slt 0 job.periodical
                then elim (storage_flight_plan_set (add_32 timetodo job.periodical) job st') [
                  | none ↦ none
                  | some (rc', st'') ↦ some (if rc' == 0 then 0 else minus_one, some job, st'')
                ]
                else some (0, some job, st')
          ]
    ]
  ]

  unfoldable pub storage_flight_plan_erase : ℕ → Store F → Outcome F
  storage_flight_plan_erase timetodo st = elim (flight_plan_find_index timetodo st) [
    | none ↦ none
    | some i ↦ if slt i 0 then some (minus_one, st) else flight_plan_erase_index i st
  ]

  -- The loop over the sections from `i` with the entries left.
  unfoldable pub reset_from : ℕ → ℕ → ℕ → Store F → Outcome F
  reset_from i entries zero st = some (0, set_queue (if slt entries 0 then 0 else entries) st)
  reset_from i entries (suc rounds) st = elim (section_address addresses i) [
    | none ↦ none
    | some add ↦
        let (rc, f) = flash.erase_block add st.flash_state in
        let st' = record st { flash_state = f } in
        let rest = reset_from (i + 1) (sub_32 entries commands_per_section) rounds st' in
        if rc == 0
        then rest
        else some (minus_one, set_queue (if sle 0 entries then entries else 0) st')
  ]

  unfoldable pub storage_flight_plan_reset : Store F → Outcome F
  storage_flight_plan_reset st =
      reset_from 0 (queue st) (rounds_of (add_32 (quotient (queue st) commands_per_section) 1)) st

  -- The rows that `storage_show_table` prints, as each entry's time and job; the number of executions,
  -- which is read with the rest, is not printed.
  unfoldable pub show_from : ℕ → ℕ → F → Option (List (ℕ × Job))
  show_from i zero f = some []
  show_from i (suc rounds) f =
      let rest = show_from (i + 1) rounds f in
      elim (slot_address addresses i) [
        | none ↦ none
        | some add ↦ elim rest [
          | none ↦ none
          | some rows ↦ some ((number (read add 4 f), read_job add f) ∷ rows)
        ]
      ]

  unfoldable pub storage_show_table : Store F → Option (List (ℕ × Job))
  storage_show_table st = show_from 0 (rounds_of (queue st)) st.flash_state
