-- ===== src/Flash/Fetched.antt =====
-- A job that src/drivers/nanomind/data_storage.c stores in the flash and gives back.
use balloon_suchai_flight_so.Prelude.{
  ℕ, ◌+◌, ◌-◌, ◌*◌, ◌<◌, ◌^◌, ◌≡◌, ◌≢◌, ◌⊎◌, refl, ap, sym, ◌∙◌, inl, inr, arith, true, false, List,
  ◌++◌, some, length, append-nil, ltb, Bool-cases,
}
use balloon_suchai_flight_so.Prelude.Upto.{upto, upto-shift}
use balloon_suchai_flight_so.Prelude.Words.{slt, add_32}
use balloon_suchai_flight_so.FlightPlan.{Job}
use balloon_suchai_flight_so.Flash.{
  Flash, Addresses, max_command_size, fp_max_entries, storage_init, blank_byte,
}
use balloon_suchai_flight_so.Flash.Plan.{
  Store, queue, read, slot_address, read_job, flight_plan_find_index, flight_plan_erase_index,
  storage_flight_plan_set, storage_flight_plan_get,
}
use balloon_suchai_flight_so.Flash.Slots.{plan_start, slot, slot_address-slot}
use balloon_suchai_flight_so.Flash.Entry.{Fits}
use balloon_suchai_flight_so.Flash.Found.{time_of}
use balloon_suchai_flight_so.Flash.Erase.{Erased}
use balloon_suchai_flight_so.Flash.Stored.{Stored, set-Stored}
use balloon_suchai_flight_so.Flash.Waiting.{Filled, Filled-Erased, find-first, positive}

split : (n j : ℕ) → j < n + 1 → (j < n) ⊎ (j ≡ n)
split n j h = elim (Bool-cases (ltb j n)) [
  | inl e ↦ inl (ground (arith, e))
  | inr e ↦ inr (ground (arith, e, h))
]

module _ {F : Type 0} (flash : Flash F)
    (writes_done : (a : ℕ) (bs : List ℕ) (g : F) → (flash.write_data a bs g).0 ≡ 0)
    (erases_done : (a : ℕ) (g : F) → (flash.erase_block a g).0 ≡ 0) (word : ℕ → List ℕ)
    (number : List ℕ → ℕ) (four : (x : ℕ) → length (word x) ≡ 4)
    (number-word : (x : ℕ) → x < 2 ^ 32 → number (word x) ≡ x) where
  get_once-by :
      (addresses : Addresses) (timetodo i add : ℕ) (job : Job) (st st' : Store F)
      → flight_plan_find_index flash addresses word number timetodo st ≡ some i
      → slt i 0 ≡ false
      → slot_address addresses i ≡ some add
      → read_job flash addresses word number add st.flash_state ≡ job
      → flight_plan_erase_index flash addresses word number i st ≡ some (0, st')
      → slt 0 job.periodical ≡ false
      → storage_flight_plan_get flash addresses word number timetodo st ≡ some (0, some job, st')
  unfolding storage_flight_plan_get
  get_once-by addresses timetodo i add job st st' found low at held erased once =
      rw (storage_flight_plan_get, found, low, at, erased, held, once) refl

  get_again-by :
      (addresses : Addresses) (timetodo i add : ℕ) (job : Job) (st st' st'' : Store F)
      → flight_plan_find_index flash addresses word number timetodo st ≡ some i
      → slt i 0 ≡ false
      → slot_address addresses i ≡ some add
      → read_job flash addresses word number add st.flash_state ≡ job
      → flight_plan_erase_index flash addresses word number i st ≡ some (0, st')
      → slt 0 job.periodical ≡ true
      → storage_flight_plan_set flash addresses word number (add_32 timetodo job.periodical) job st'
        ≡ some (0, st'')
      → storage_flight_plan_get flash addresses word number timetodo st ≡ some (0, some job, st'')
  unfolding storage_flight_plan_get
  get_again-by addresses timetodo i add job st st' st'' found low at held erased again stored =
      rw (storage_flight_plan_get, found, low, at, erased, held, again, stored) (rw held refl)

  same_times :
      (timetodo n j : ℕ) (job : Job) (st : Store F)
      (stored : Stored flash writes_done word number four number-word timetodo n job st)
      → j < n
      → time_of flash word number j stored.after.flash_state
        ≡ time_of flash word number j st.flash_state
  same_times timetodo n j job st stored l = ap number (
      upto-shift (λ k. flash.byte k stored.after.flash_state) (λ k. flash.byte k st.flash_state)
        (slot j) (slot j) 4 (λ k h. stored.below (slot j + k) (omega (arith, h, l))))

  -- The entries after a store, which are one more.
  Filled-set :
      (timetodo n : ℕ) (job : Job) (st : Store F)
      → Filled flash writes_done erases_done word number n st
      → n < fp_max_entries
      → timetodo ≢ 0
      → (stored : Stored flash writes_done word number four number-word timetodo n job st)
      → Filled flash writes_done erases_done word number (n + 1) stored.after
  Filled-set timetodo n job st filled room ne stored = record {
    valid = stored.valid;
    counted = stored.more;
    few = omega (arith, room);
    times = λ j l e. elim (split n j l) [
      | inl before ↦ filled.times j before (sym (same_times timetodo n j job st stored before) ∙ e)
      | inr last ↦ ne (
          sym stored.time
          ∙ ap (λ (k : ℕ). time_of flash word number k stored.after.flash_state) (sym last)
          ∙ e)
    ];
  }

  -- The first `n` entries are those that stood there before the store.
  same_entries :
      (timetodo n : ℕ) (job : Job) (st : Store F)
      → Filled flash writes_done erases_done word number n st
      → (stored : Stored flash writes_done word number four number-word timetodo n job st)
      → (erased : Erased flash word number n (n + 1) stored.after)
      → read flash storage_init word number plan_start
          (n * max_command_size)
          erased.after.flash_state
        ≡ read flash storage_init word number plan_start (n * max_command_size) st.flash_state
  same_entries timetodo n job st filled stored erased =
      let g = λ (k : ℕ). flash.byte k erased.after.flash_state in
      let h = λ (k : ℕ). flash.byte k stored.after.flash_state in
      let few : n + 1 - 1 ≡ n = omega arith in
      let none_behind : (n + 1 - 1 - n) * max_command_size ≡ 0 = omega arith in
      ap (λ (m : ℕ). upto g plan_start (m * max_command_size)) (sym few)
      ∙ erased.bytes
      ∙ ap (λ (m : ℕ). upto h plan_start (n * max_command_size) ++ upto h (slot (n + 1)) m)
          none_behind
      ∙ append-nil (upto h plan_start (n * max_command_size))
      ∙ upto-shift h (λ k. flash.byte k st.flash_state) plan_start plan_start (n * max_command_size)
          (λ k l. stored.below (plan_start + k) (omega (arith, l)))

  -- A store behind `n` entries, and the entry's search.
  record Searched (timetodo n : ℕ) (job : Job) (st : Store F) : Type 0 where
    pub stored : Stored flash writes_done word number four number-word timetodo n job st
    pub found : flight_plan_find_index flash storage_init word number timetodo stored.after ≡ some n
    pub erased : Erased flash word number n (n + 1) stored.after

  set-Searched :
      (timetodo n : ℕ) (job : Job) (st : Store F)
      → Filled flash writes_done erases_done word number n st
      → n < fp_max_entries
      → timetodo ≢ 0
      → ((j : ℕ) → j < n → time_of flash word number j st.flash_state ≢ timetodo)
      → Fits timetodo job
      → ((k : ℕ) → k < max_command_size → flash.byte (slot n + k) st.flash_state ≡ blank_byte)
      → Searched timetodo n job st
  set-Searched timetodo n job st filled room ne fresh fits blank =
      let stored =
        set-Stored flash writes_done word number four number-word timetodo n job st filled.valid
          filled.counted room fits blank in
      let filled' = Filled-set timetodo n job st filled room ne stored in
      record {
        stored = stored;
        found =
            find-first flash writes_done erases_done word number timetodo n (n + 1) stored.after
              filled' (omega arith)
              (λ j l e. fresh j l (sym (same_times timetodo n j job st stored l) ∙ e)) stored.time;
        erased =
            Filled-Erased flash writes_done erases_done word number n (n + 1) stored.after filled'
              (omega arith);
      }

  -- On a flash whose writes and erasures do not fail, with an order of bytes in which four bytes
  -- keep a number below 2 ^ 32: a job that fits an entry, with a time that is not 0 and that none of
  -- the n < 25 entries has, is stored in the erased place behind them with result 0. Where its
  -- period is not positive, the look-up of its time gives 0 and the same job, and leaves n in the
  -- queue and the n entries as they were.
  pub stored_job_is_given_back :
      (timetodo n : ℕ) (job : Job) (st : Store F)
      → Filled flash writes_done erases_done word number n st
      → n < fp_max_entries
      → timetodo ≢ 0
      → ((j : ℕ) → j < n → time_of flash word number j st.flash_state ≢ timetodo)
      → Fits timetodo job
      → ((k : ℕ) → k < max_command_size → flash.byte (slot n + k) st.flash_state ≡ blank_byte)
      → slt 0 job.periodical ≡ false
      → (st' st'' : Store F) × (storage_flight_plan_set flash storage_init word number timetodo job
            st
          ≡ some (0, st'))
        × (storage_flight_plan_get flash storage_init word number timetodo st'
            ≡ some (0, some job, st''))
        × (queue st'' ≡ n)
        × (read flash storage_init word number plan_start (n * max_command_size) st''.flash_state
            ≡ read flash storage_init word number plan_start (n * max_command_size) st.flash_state)
  stored_job_is_given_back timetodo n job st filled room ne fresh fits blank once =
      let at = set-Searched timetodo n job st filled room ne fresh fits blank in
      (
        at.stored.after,
        at.erased.after,
        at.stored.runs,
        get_once-by storage_init timetodo n (slot n) job at.stored.after at.erased.after at.found
            (positive n room) (slot_address-slot n room) at.stored.held at.erased.runs once,
        at.erased.fewer ∙ omega arith,
        same_entries timetodo n job st filled at.stored at.erased,
      )

  -- On a flash whose writes and erasures do not fail, with an order of bytes in which four bytes
  -- keep a number below 2 ^ 32: a job that fits an entry, with a time that is not 0 and that none of
  -- the n < 25 entries has, is stored in the erased place behind them with result 0. Where its
  -- period is positive, the look-up of its time gives 0 and the same job, and leaves the job in the
  -- n-th place again, with the period added to its time on 32 bits, and n + 1 in the queue.
  pub periodic_job_is_stored_again :
      (timetodo n : ℕ) (job : Job) (st : Store F)
      → Filled flash writes_done erases_done word number n st
      → n < fp_max_entries
      → timetodo ≢ 0
      → ((j : ℕ) → j < n → time_of flash word number j st.flash_state ≢ timetodo)
      → Fits timetodo job
      → ((k : ℕ) → k < max_command_size → flash.byte (slot n + k) st.flash_state ≡ blank_byte)
      → slt 0 job.periodical ≡ true
      → (st' st'' : Store F) × (storage_flight_plan_set flash storage_init word number timetodo job
            st
          ≡ some (0, st'))
        × (storage_flight_plan_get flash storage_init word number timetodo st'
            ≡ some (0, some job, st''))
        × (queue st'' ≡ n + 1)
        × (read_job flash storage_init word number (slot n) st''.flash_state ≡ job)
        × (time_of flash word number n st''.flash_state ≡ add_32 timetodo job.periodical)
  periodic_job_is_stored_again timetodo n job st filled room ne fresh fits blank again =
      let at = set-Searched timetodo n job st filled room ne fresh fits blank in
      let later = add_32 timetodo job.periodical in
      let fits' : Fits later job = record {
        time = omega arith;
        executions = fits.executions;
        periodical = fits.periodical;
        command = fits.command;
        args = fits.args;
      } in
      let stored' =
        set-Stored flash writes_done word number four number-word later n job at.erased.after
          at.erased.valid (at.erased.fewer ∙ omega arith) room fits'
          (λ k l. at.erased.blank (slot n + k) (omega arith) (omega (arith, l, room))) in
      (
        at.stored.after,
        stored'.after,
        at.stored.runs,
        get_again-by storage_init timetodo n (slot n) job at.stored.after at.erased.after
            stored'.after at.found (positive n room) (slot_address-slot n room) at.stored.held
            at.erased.runs again stored'.runs,
        stored'.more,
        stored'.held,
        stored'.time,
      )
