-- ===== src/Flash/Erase.antt =====
-- What `flight_plan_erase_index` and `storage_flight_plan_erase` of
-- src/drivers/nanomind/data_storage.c leave.
use balloon_suchai_flight_so.Prelude.{
  ℕ, ◌+◌, ◌-◌, ◌*◌, ◌<◌, ◌≤◌, ◌≡◌, ◌≢◌, refl, ap, ap₂, sym, ◌∙◌, arith, false, ◌||◌, List, ◌++◌,
  some,
}
use balloon_suchai_flight_so.Prelude.Upto.{upto, upto-shift}
use balloon_suchai_flight_so.Prelude.Words.{slt, sle}
use balloon_suchai_flight_so.Status.{IsValid}
use balloon_suchai_flight_so.Status.Vars.{index}
use balloon_suchai_flight_so.Status.Vars.DatSystem.{dat_fpl_queue}
use balloon_suchai_flight_so.Status.Access.{get-set_system_var, dat_set_system_var-IsValid}
use balloon_suchai_flight_so.Telemetry.{quotient}
use balloon_suchai_flight_so.Flash.{
  Flash, Addresses, max_command_size, fp_max_entries, storage_init, blank_byte, remainder,
  size_per_section,
}
use balloon_suchai_flight_so.Flash.Plan.{
  Store, queue, set_queue, read, section_address, rounds_of, commands_per_section, rewrite_from,
  flight_plan_erase_index,
}
use balloon_suchai_flight_so.Flash.Rewrite.{rewrite-Written, count, count-drop, kept-drop}
use balloon_suchai_flight_so.Flash.Slots.{
  plan_start, slot, section_address-first, quotient-first, remainder-first, rounds-few,
}

in_queue : (i n : ℕ) → n ≤ fp_max_entries → i < n → (slt i 0 || sle n i) ≡ false
in_queue i n few inside = ground (arith, few, inside)

module _ {F : Type 0} (flash : Flash F) (word : ℕ → List ℕ) (number : List ℕ → ℕ) where
  erase_index-by :
      (addresses : Addresses) (i n q r add w : ℕ) (st : Store F) (f f' : F)
      → (slt i 0 || sle (queue st) i) ≡ false
      → quotient i commands_per_section ≡ q
      → section_address addresses q ≡ some add
      → remainder i commands_per_section ≡ r
      → rounds_of (queue st) ≡ n
      → flash.erase_block add st.flash_state ≡ (0, f)
      → rewrite_from flash addresses word number
          (λ k. flash.byte (add + k) st.flash_state)
          r
          0
          n
          add
          0
          f
        ≡ (w, false, f')
      → flight_plan_erase_index flash addresses word number i st
        ≡ some (0, set_queue w (record st { flash_state = f' }))
  unfolding flight_plan_erase_index
  erase_index-by addresses i n q r add w st f f' inside eq es er rounds erased rewritten =
      rw (inside, eq, es, er, rounds, erased, rewritten) refl

  -- What an erasure of entry `i` leaves: the number in the queue, the entries before `i` and those
  -- behind it, one after the other, and an erased place behind them.
  pub record Erased (i n : ℕ) (st : Store F) : Type 0 where
    pub after : Store F
    pub runs : flight_plan_erase_index flash storage_init word number i st ≡ some (0, after)
    pub fewer : queue after ≡ n - 1
    pub valid : IsValid after.buff
    pub bytes :
        read flash storage_init word number plan_start
          ((n - 1) * max_command_size)
          after.flash_state
        ≡ read flash storage_init word number plan_start (i * max_command_size) st.flash_state
          ++ read flash storage_init word number
              (slot (i + 1))
              ((n - 1 - i) * max_command_size)
              st.flash_state
    pub blank :
        (k : ℕ)
        → slot (n - 1) ≤ k
        → k < plan_start + size_per_section
        → flash.byte k after.flash_state ≡ blank_byte

  pub erase_index-Erased :
      (i n : ℕ) (st : Store F) (f : F)
      → IsValid st.buff
      → queue st ≡ n
      → n ≤ fp_max_entries
      → i < n
      → flash.erase_block plan_start st.flash_state ≡ (0, f)
      → ((a : ℕ) (bs : List ℕ) (g : F) → (flash.write_data a bs g).0 ≡ 0)
      → ((j : ℕ)
          → j < n
          → number (read flash storage_init word number (slot j) 4 st.flash_state) ≢ 0)
      → Erased i n st
  erase_index-Erased i n st f v en few inside erased writes times =
      let sd = λ (k : ℕ). flash.byte (plan_start + k) st.flash_state in
      let wr =
        rewrite-Written flash storage_init word number sd i 0 n plan_start 0 f writes
          (omega (arith, few))
          (λ j l g e. times j (omega arith) (
            ap number (
              upto-shift (λ k. flash.byte k st.flash_state) sd (slot j) (j * max_command_size) 4
                (λ k lt. ap (λ a. flash.byte a st.flash_state) (omega arith)))
            ∙ e))
          (λ k l.
            flash.erased plan_start st.flash_state f (plan_start + k) erased (omega arith)
              (omega (arith, few, l))) in
      let c : count flash storage_init word number sd i 0 n ≡ n - 1 =
        count-drop flash storage_init word number sd i 0 n i (n - 1 - i) (omega arith)
          (omega (arith, inside))
        ∙ omega (arith, inside) in
      let c_0 : 0 + count flash storage_init word number sd i 0 n ≡ n - 1 = omega (arith, c) in
      let k = index dat_fpl_queue in
      let st' : Store F = set_queue (n - 1) (record st { flash_state = wr.after }) in
      let g = λ (a : ℕ). flash.byte a wr.after in
      let from = λ (a m : ℕ).
        upto-shift sd (λ k. flash.byte k st.flash_state) a (plan_start + a) m
          (λ k l. ap (λ b. flash.byte b st.flash_state) (omega arith)) in
      record {
        after = st';
        runs =
            erase_index-by storage_init i n 0 i plan_start (n - 1) st f wr.after
              (ap (λ (q : ℕ). slt i 0 || sle q i) en ∙ in_queue i n few inside)
              (quotient-first i (omega (arith, inside, few))) section_address-first
              (remainder-first i (omega (arith, inside, few))) (ap rounds_of en ∙ rounds-few n few)
              erased (wr.runs ∙ ap (λ (q : ℕ). (q, false, wr.after)) c_0);
        fewer = get-set_system_var st.buff k k (n - 1) v (omega arith) (omega arith) ∙ ground arith;
        valid = dat_set_system_var-IsValid st.buff k (n - 1) v;
        bytes =
            ap (λ (q : ℕ). upto g plan_start (q * max_command_size)) (sym c)
            ∙ wr.bytes
            ∙ kept-drop flash storage_init word number sd i 0 n i (n - 1 - i) (omega arith)
                (omega (arith, inside))
            ∙ ap₂ ◌++◌
                (from 0 (i * max_command_size)
                  ∙ ap (λ (a : ℕ). upto (λ k. flash.byte k st.flash_state) a (i * max_command_size))
                      (omega arith))
                (from ((i + 1) * max_command_size) ((n - 1 - i) * max_command_size));
        blank = λ a l h.
            wr.above a (omega (arith, l, c))
            ∙ flash.erased plan_start st.flash_state f a erased (omega (arith, l)) h;
      }
