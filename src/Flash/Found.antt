-- ===== src/Flash/Found.antt =====
-- The search of src/drivers/nanomind/data_storage.c for an entry by its time.
use balloon_suchai_flight_so.Prelude.{
  ℕ, zero, suc, ◌+◌, ◌<◌, ◌≤◌, ◌≡◌, ◌≢◌, refl, ap, ◌∙◌, arith, Bool, true, false, List, some,
  if◌then◌else◌, ◌==◌,
}
use balloon_suchai_flight_so.Prelude.Words.{minus_one}
use balloon_suchai_flight_so.Flash.{Flash, fp_max_entries, storage_init}
use balloon_suchai_flight_so.Flash.Plan.{read, slot_address, find_from}
use balloon_suchai_flight_so.Flash.Slots.{slot, slot_address-slot}

differ : (a b : ℕ) → a ≢ b → (a == b) ≡ false
differ a b h = ground (arith, h)

same : (a b : ℕ) → a ≡ b → (a == b) ≡ true
same a b h = ground (arith, h)

module _ {F : Type 0} (flash : Flash F) (word : ℕ → List ℕ) (number : List ℕ → ℕ) where
  -- The time of entry `i`.
  abbrev pub time_of : ℕ → F → ℕ
  time_of i f = number (read flash storage_init word number (slot i) 4 f)

  find_from-step :
      (timetodo i rounds add : ℕ) (found : Bool) (f : F)
      → slot_address storage_init i ≡ some add
      → (number (read flash storage_init word number add 4 f) == timetodo) ≡ found
      → find_from flash storage_init word number timetodo i (suc rounds) f ≡ (
          if found
          then some i
          else find_from flash storage_init word number timetodo (i + 1) rounds f)
  unfolding find_from
  find_from-step timetodo i rounds add found f e h = rw (find_from, e, h) refl

  -- The first entry with the time is found.
  pub find_from-first :
      (timetodo i rounds a : ℕ) (f : F)
      → i + rounds ≤ fp_max_entries
      → a < rounds
      → ((j : ℕ) → j < a → time_of (i + j) f ≢ timetodo)
      → time_of (i + a) f ≡ timetodo
      → find_from flash storage_init word number timetodo i rounds f ≡ some (i + a)
  find_from-first timetodo i zero a f few lt before at = absurd (omega (arith, lt))
  find_from-first timetodo i (suc rounds) zero f few lt before at =
      find_from-step timetodo i rounds (slot i) true f (slot_address-slot i (omega (arith, few)))
        (same (time_of i f) timetodo (ap (λ (j : ℕ). time_of j f) (omega arith) ∙ at))
      ∙ ap some (omega arith)
  find_from-first timetodo i (suc rounds) (suc a) f few lt before at =
      find_from-step timetodo i rounds (slot i) false f (slot_address-slot i (omega (arith, few))) (
        differ (time_of i f) timetodo
          (λ e. before 0 (omega arith) (ap (λ (j : ℕ). time_of j f) (omega arith) ∙ e)))
      ∙ find_from-first timetodo (i + 1) rounds a f (omega (arith, few)) (omega (arith, lt))
          (λ j l e.
            before (j + 1) (omega (arith, l)) (ap (λ (k : ℕ). time_of k f) (omega arith) ∙ e))
          (ap (λ (k : ℕ). time_of k f) (omega arith) ∙ at)
      ∙ ap some (omega arith)

  -- Where no entry has the time, the result is -1.
  pub find_from-none :
      (timetodo i rounds : ℕ) (f : F)
      → i + rounds ≤ fp_max_entries
      → ((j : ℕ) → j < rounds → time_of (i + j) f ≢ timetodo)
      → find_from flash storage_init word number timetodo i rounds f ≡ some minus_one
  unfolding find_from
  find_from-none timetodo i zero f few none_at = refl
  find_from-none timetodo i (suc rounds) f few none_at =
      find_from-step timetodo i rounds (slot i) false f (slot_address-slot i (omega (arith, few))) (
        differ (time_of i f) timetodo
          (λ e. none_at 0 (omega arith) (ap (λ (j : ℕ). time_of j f) (omega arith) ∙ e)))
      ∙ find_from-none timetodo (i + 1) rounds f (omega (arith, few)) (λ j l e.
        none_at (j + 1) (omega (arith, l)) (ap (λ (k : ℕ). time_of k f) (omega arith) ∙ e))
