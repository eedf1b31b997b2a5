-- ===== src/Flash/Waiting.antt =====
-- The flight plan in the flash, from an entry's store to its removal, with
-- src/drivers/nanomind/data_storage.c.
use balloon_suchai_flight_so.Prelude.{
  ℕ, ◌+◌, ◌-◌, ◌*◌, ◌<◌, ◌≤◌, ◌≡◌, ◌≢◌, refl, ap, sym, ◌∙◌, arith, false, List, ◌++◌, some,
}
use balloon_suchai_flight_so.Prelude.Words.{slt, minus_one}
use balloon_suchai_flight_so.Status.{IsValid}
use balloon_suchai_flight_so.Flash.{
  Flash, Addresses, max_command_size, fp_max_entries, storage_init,
}
use balloon_suchai_flight_so.Flash.Plan.{
  Store, queue, read, rounds_of, find_from, flight_plan_find_index, flight_plan_erase_index,
  storage_flight_plan_erase,
}
use balloon_suchai_flight_so.Flash.Slots.{plan_start, slot, rounds-few}
use balloon_suchai_flight_so.Flash.Found.{time_of, find_from-first, find_from-none}
use balloon_suchai_flight_so.Flash.Erase.{Erased, erase_index-Erased}

pub positive : (i : ℕ) → i < fp_max_entries → slt i 0 ≡ false
positive i h = ground (arith, h)

module _ {F : Type 0} (flash : Flash F)
    (writes_done : (a : ℕ) (bs : List ℕ) (g : F) → (flash.write_data a bs g).0 ≡ 0)
    (erases_done : (a : ℕ) (g : F) → (flash.erase_block a g).0 ≡ 0) (word : ℕ → List ℕ)
    (number : List ℕ → ℕ) where
  -- The times of the entries, and a queue that they fill.
  pub record Filled (n : ℕ) (st : Store F) : Type 0 where
    pub valid : IsValid st.buff
    pub counted : queue st ≡ n
    pub few : n ≤ fp_max_entries
    pub times : (j : ℕ) → j < n → time_of flash word number j st.flash_state ≢ 0

  shift : (j : ℕ) (f : F) → time_of flash word number (0 + j) f ≡ time_of flash word number j f
  shift j f = ap (λ (k : ℕ). time_of flash word number k f) (omega arith)

  pub Filled-Erased :
      (i n : ℕ) (st : Store F) → Filled n st → i < n → Erased flash word number i n st
  Filled-Erased i n st filled inside =
      let f = (flash.erase_block plan_start st.flash_state).1 in
      erase_index-Erased flash word number i n st f filled.valid filled.counted filled.few inside
        (ap (λ x. (x, f)) (erases_done plan_start st.flash_state)) writes_done filled.times

  pub find-first :
      (timetodo i n : ℕ) (st : Store F)
      → Filled n st
      → i < n
      → ((j : ℕ) → j < i → time_of flash word number j st.flash_state ≢ timetodo)
      → time_of flash word number i st.flash_state ≡ timetodo
      → flight_plan_find_index flash storage_init word number timetodo st ≡ some i
  unfolding flight_plan_find_index
  find-first timetodo i n st filled inside before at =
      ap
        (λ (m : ℕ).
          find_from flash storage_init word number timetodo 0 (rounds_of m) st.flash_state)
        filled.counted
      ∙ ap (λ (m : ℕ). find_from flash storage_init word number timetodo 0 m st.flash_state)
          (rounds-few n filled.few)
      ∙ find_from-first flash word number timetodo 0 n i st.flash_state (omega (arith, filled.few))
          inside (λ j l e. before j l (sym (shift j st.flash_state) ∙ e))
          (shift i st.flash_state ∙ at)
      ∙ ap some (omega arith)

  find-none :
      (timetodo n : ℕ) (st : Store F)
      → Filled n st
      → ((j : ℕ) → j < n → time_of flash word number j st.flash_state ≢ timetodo)
      → flight_plan_find_index flash storage_init word number timetodo st ≡ some minus_one
  unfolding flight_plan_find_index
  find-none timetodo n st filled before =
      ap
        (λ (m : ℕ).
          find_from flash storage_init word number timetodo 0 (rounds_of m) st.flash_state)
        filled.counted
      ∙ ap (λ (m : ℕ). find_from flash storage_init word number timetodo 0 m st.flash_state)
          (rounds-few n filled.few)
      ∙ find_from-none flash word number timetodo 0 n st.flash_state (omega (arith, filled.few))
          (λ j l e. before j l (sym (shift j st.flash_state) ∙ e))

  erase-by :
      (addresses : Addresses) (timetodo i : ℕ) (st : Store F) (st' : Store F)
      → flight_plan_find_index flash addresses word number timetodo st ≡ some i
      → slt i 0 ≡ false
      → flight_plan_erase_index flash addresses word number i st ≡ some (0, st')
      → storage_flight_plan_erase flash addresses word number timetodo st ≡ some (0, st')
  unfolding storage_flight_plan_erase
  erase-by addresses timetodo i st st' found low erased =
      rw (storage_flight_plan_erase, found, low) erased

  erase-absent :
      (addresses : Addresses) (timetodo : ℕ) (st : Store F)
      → flight_plan_find_index flash addresses word number timetodo st ≡ some minus_one
      → storage_flight_plan_erase flash addresses word number timetodo st ≡ some (minus_one, st)
  unfolding storage_flight_plan_erase
  erase-absent addresses timetodo st found = rw (storage_flight_plan_erase, found) refl

  -- On a valid buffer and `n` entries, at most 25, with times that are not 0, where no write and no
  -- erasure of the flash fails: the erasure of a time gives 0, takes the first entry with that time
  -- out, and leaves the entries before and behind it as they were, in a row, with n - 1 in the
  -- queue.
  pub erasure_drops_the_first :
      (timetodo i n : ℕ) (st : Store F)
      → Filled n st
      → i < n
      → ((j : ℕ) → j < i → time_of flash word number j st.flash_state ≢ timetodo)
      → time_of flash word number i st.flash_state ≡ timetodo
      → (st' : Store F) × (storage_flight_plan_erase flash storage_init word number timetodo st
          ≡ some (0, st'))
        × (queue st' ≡ n - 1)
        × (read flash storage_init word number plan_start
              ((n - 1) * max_command_size)
              st'.flash_state
            ≡ read flash storage_init word number plan_start (i * max_command_size) st.flash_state
              ++ read flash storage_init word number
                  (slot (i + 1))
                  ((n - 1 - i) * max_command_size)
                  st.flash_state)
  erasure_drops_the_first timetodo i n st filled inside before at =
      let erased = Filled-Erased i n st filled inside in
      (
        erased.after,
        erase-by storage_init timetodo i st erased.after
            (find-first timetodo i n st filled inside before at)
            (positive i (omega (arith, inside, filled.few))) erased.runs,
        erased.fewer,
        erased.bytes,
      )

  -- Where no entry has the time, an erasure gives -1 and leaves the store.
  erasure_of_no_entry :
      (timetodo n : ℕ) (st : Store F)
      → Filled n st
      → ((j : ℕ) → j < n → time_of flash word number j st.flash_state ≢ timetodo)
      → storage_flight_plan_erase flash storage_init word number timetodo st ≡ some (minus_one, st)
  erasure_of_no_entry timetodo n st filled absent =
      erase-absent storage_init timetodo st (find-none timetodo n st filled absent)
