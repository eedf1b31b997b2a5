-- ===== src/Flash/Stored.antt =====
-- What `storage_flight_plan_set` of src/drivers/nanomind/data_storage.c stores.
use balloon_suchai_flight_so.Prelude.{
  ℕ, ◌+◌, ◌<◌, ◌^◌, ◌≡◌, refl, ap, ◌∙◌, inl, arith, true, false, List, some, length,
}
use balloon_suchai_flight_so.Prelude.Words.{sle, add_32}
use balloon_suchai_flight_so.Status.{IsValid}
use balloon_suchai_flight_so.Status.Vars.{index}
use balloon_suchai_flight_so.Status.Vars.DatSystem.{dat_fpl_queue}
use balloon_suchai_flight_so.Status.Access.{get-set_system_var, dat_set_system_var-IsValid}
use balloon_suchai_flight_so.FlightPlan.{Job}
use balloon_suchai_flight_so.Flash.{
  Flash, Addresses, max_command_size, fp_max_entries, storage_init, blank_byte,
}
use balloon_suchai_flight_so.Flash.Plan.{
  Store, queue, set_queue, slot_address, write_all, entry_writes, read_job, storage_flight_plan_set,
}
use balloon_suchai_flight_so.Flash.Slots.{slot, slot_address-slot}
use balloon_suchai_flight_so.Flash.Writes.{final, final-kept, write_all-final, plain, plain_writes}
use balloon_suchai_flight_so.Flash.Entry.{Fits, final-Blocks, read_job-Blocks}
use balloon_suchai_flight_so.Flash.Found.{time_of}

room : (n : ℕ) → n < fp_max_entries → sle fp_max_entries n ≡ false
room n h = ground (arith, h)

module _ {F : Type 0} (flash : Flash F)
    (writes_done : (a : ℕ) (bs : List ℕ) (g : F) → (flash.write_data a bs g).0 ≡ 0)
    (word : ℕ → List ℕ) (number : List ℕ → ℕ) (four : (x : ℕ) → length (word x) ≡ 4)
    (number-word : (x : ℕ) → x < 2 ^ 32 → number (word x) ≡ x) where
  set-by :
      (addresses : Addresses) (timetodo add : ℕ) (job : Job) (st : Store F) (f : F)
      → sle fp_max_entries (queue st) ≡ false
      → slot_address addresses (queue st) ≡ some add
      → write_all flash addresses word number
          (entry_writes flash addresses word number add timetodo job)
          st.flash_state
        ≡ (true, f)
      → storage_flight_plan_set flash addresses word number timetodo job st
        ≡ some (0, set_queue (add_32 (queue st) 1) (record st { flash_state = f }))
  unfolding storage_flight_plan_set
  set-by addresses timetodo add job st f below at written = rw (below, at, written) refl

  -- What a store of a job behind `n` entries leaves.
  pub record Stored (timetodo n : ℕ) (job : Job) (st : Store F) : Type 0 where
    pub after : Store F
    pub runs :
        storage_flight_plan_set flash storage_init word number timetodo job st ≡ some (0, after)
    pub valid : IsValid after.buff
    pub more : queue after ≡ n + 1
    pub held : read_job flash storage_init word number (slot n) after.flash_state ≡ job
    pub time : time_of flash word number n after.flash_state ≡ timetodo
    pub below : (k : ℕ) → k < slot n → flash.byte k after.flash_state ≡ flash.byte k st.flash_state

  pub set-Stored :
      (timetodo n : ℕ) (job : Job) (st : Store F)
      → IsValid st.buff
      → queue st ≡ n
      → n < fp_max_entries
      → Fits timetodo job
      → ((k : ℕ) → k < max_command_size → flash.byte (slot n + k) st.flash_state ≡ blank_byte)
      → Stored timetodo n job st
  set-Stored timetodo n job st v en few fits blank =
      let writes = plain_writes flash writes_done word (slot n) timetodo job in
      let f = final flash writes_done writes st.flash_state in
      let k = index dat_fpl_queue in
      let blocks =
        final-Blocks flash writes_done word number four number-word (slot n) timetodo job
          st.flash_state fits blank in
      record {
        after = set_queue (n + 1) (record st { flash_state = f });
        runs =
            set-by storage_init timetodo (slot n) job st f (ap (sle fp_max_entries) en ∙ room n few)
              (ap (slot_address storage_init) en ∙ slot_address-slot n few)
              (ap (λ ws. write_all flash storage_init word number ws st.flash_state)
                  (plain flash writes_done word (slot n) timetodo job (omega (arith, few)))
                ∙ write_all-final flash writes_done word number writes st.flash_state)
            ∙ ap (λ (m : ℕ). some (0, set_queue m (record st { flash_state = f })))
                (ap (λ (m : ℕ). add_32 m 1) en ∙ ground (arith, few));
        valid = dat_set_system_var-IsValid st.buff k (n + 1) v;
        more = get-set_system_var st.buff k k (n + 1) v (omega arith) (omega arith) ∙ ground arith;
        held =
            read_job-Blocks flash writes_done word number four number-word (slot n) timetodo job f
              fits (omega (arith, few)) blocks;
        time = ap number blocks.time ∙ number-word timetodo fits.time;
        below = λ a l. final-kept flash writes_done writes st.flash_state a (
          inl l,
          (inl (omega (arith, l)), (inl (omega (arith, l)), (inl (omega (arith, l)), tt))),
        );
      }
