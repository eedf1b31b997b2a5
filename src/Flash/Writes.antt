-- ===== src/Flash/Writes.antt =====
-- The writes of an entry of the flight plan, of src/drivers/nanomind/data_storage.c.
use balloon_suchai_flight_so.Prelude.{
  ℕ, zero, suc, ◌+◌, ◌%◌, ◌<◌, ◌≤◌, ◌^◌, ◌≡◌, ◌⊎◌, refl, ap, ap₂, ◌∙◌, arith, true, List, [], ◌∷◌,
  ◌++◌, length,
}
use mathlib.Core.List.{head-eq_of_cons-eq, tail-eq_of_cons-eq}
use balloon_suchai_flight_so.Prelude.Upto.{upto, upto-list}
use balloon_suchai_flight_so.Prelude.Words.{u32_mod}
use balloon_suchai_flight_so.FlightPlan.{Job}
use balloon_suchai_flight_so.Flash.{Flash, max_command_size, storage_init, blank_byte}
use balloon_suchai_flight_so.Flash.Plan.{write_all, entry_writes}

-- A place outside each of the writes.
abbrev pub Apart : ℕ → List (ℕ × List ℕ) → Type 0
Apart k [] = Unit
Apart k ((a, bs) ∷ writes) = ((k < a) ⊎ (a + length bs ≤ k)) × Apart k writes

-- Two lists in a row.
pub upto-cut :
    (f : ℕ → ℕ) (a n : ℕ) (xs ys : List ℕ)
    → n ≡ length xs + length ys
    → upto f a n ≡ xs ++ ys
    → (upto f a (length xs) ≡ xs) × (upto f (a + length xs) (length ys) ≡ ys)
upto-cut f a n [] ys e h =
    let start : a + length {A = ℕ} [] ≡ a = omega arith in
    let count : length ys ≡ n = omega (arith, e) in
    (refl, ap (λ (k : ℕ). upto f k (length ys)) start ∙ ap (upto f a) count ∙ h)
upto-cut f a zero (x ∷ xs) ys e h = absurd (omega (arith, e))
upto-cut f a (suc n) (x ∷ xs) ys e h =
    let (first, second) = upto-cut f (a + 1) n xs ys (omega (arith, e)) (tail-eq_of_cons-eq h) in
    (
      ap₂ ◌∷◌ (head-eq_of_cons-eq h) first,
      ap (λ (k : ℕ). upto f k (length ys)) (omega arith) ∙ second,
    )

module _ {F : Type 0} (flash : Flash F)
    (writes_done : (a : ℕ) (bs : List ℕ) (g : F) → (flash.write_data a bs g).0 ≡ 0) where
  -- The flash after the writes.
  unfoldable pub final : List (ℕ × List ℕ) → F → F
  final [] f = f
  final ((a, bs) ∷ writes) f = final writes (flash.write_data a bs f).1

  pub write_all-final :
      (word : ℕ → List ℕ) (number : List ℕ → ℕ) (writes : List (ℕ × List ℕ)) (f : F)
      → write_all flash storage_init word number writes f ≡ (true, final writes f)
  unfolding write_all final
  write_all-final word number [] f = refl
  write_all-final word number ((a, bs) ∷ writes) f =
      rw (writes_done a bs f) (write_all-final word number writes (flash.write_data a bs f).1)

  write_succeeds :
      (a : ℕ) (bs : List ℕ) (f : F) → flash.write_data a bs f ≡ (0, (flash.write_data a bs f).1)
  write_succeeds a bs f = ap (λ x. (x, (flash.write_data a bs f).1)) (writes_done a bs f)

  pub final-kept :
      (writes : List (ℕ × List ℕ)) (f : F) (k : ℕ)
      → Apart k writes
      → flash.byte k (final writes f) ≡ flash.byte k f
  unfolding final
  final-kept [] f k h = refl
  final-kept ((a, bs) ∷ writes) f k h =
      let f_1 = (flash.write_data a bs f).1 in
      final-kept writes f_1 k h.1 ∙ flash.kept a bs f f_1 k (write_succeeds a bs f) h.0

  -- A write to an erased place that no other write touches is read back.
  pub final-block :
      (before behind : List (ℕ × List ℕ)) (a : ℕ) (bs : List ℕ) (f : F)
      → ((k : ℕ) → k < length bs → flash.byte (a + k) f ≡ blank_byte)
      → ((k : ℕ) → k < length bs → Apart (a + k) before)
      → ((k : ℕ) → k < length bs → Apart (a + k) behind)
      → upto
          (λ k. flash.byte k (final behind (flash.write_data a bs (final before f)).1))
          a
          (length bs)
        ≡ bs
  final-block before behind a bs f blank h h' =
      let g = final before f in
      let g' = (flash.write_data a bs g).1 in
      upto-list (λ k. flash.byte k (final behind g')) a bs
        (λ k l.
          final-kept behind g' (a + k) (h' k l)
          ∙ flash.written a bs g g' k (write_succeeds a bs g) l
              (final-kept before f (a + k) (h k l) ∙ blank k l))

  -- The four numbers of an entry, in a row.
  abbrev pub numbers : (ℕ → List ℕ) → Job → List ℕ
  numbers word job =
      word job.executions
      ++ (word job.periodical ++ (word (length job.command) ++ word (length job.args)))

  -- The four writes, without the wrap-around of the addresses.
  abbrev pub plain_writes : (ℕ → List ℕ) → ℕ → ℕ → Job → List (ℕ × List ℕ)
  plain_writes word add timetodo job =
      (add, word timetodo)
      ∷ (add + 4, numbers word job)
      ∷ (add + 20, job.command)
      ∷ (add + 84, job.args)
      ∷ []

  pub plain :
      (word : ℕ → List ℕ) (add timetodo : ℕ) (job : Job)
      → add + max_command_size < 2 ^ 32
      → entry_writes flash storage_init word (λ x. 0) add timetodo job
        ≡ plain_writes word add timetodo job
  plain word add timetodo job h =
      let e_4 : (add + 4) % u32_mod ≡ add + 4 = ground (arith, h) in
      let e_20 : (add + 20) % u32_mod ≡ add + 20 = ground (arith, h) in
      let e_84 : (add + 84) % u32_mod ≡ add + 84 = ground (arith, h) in rw (e_4, e_20, e_84) refl
