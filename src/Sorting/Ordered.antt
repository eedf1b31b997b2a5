-- ===== src/Sorting/Ordered.antt =====
-- The order that `quicksort_by_name` of src/system/repoCommand.c needs of its test, and what
-- being sorted means under it.
use balloon_suchai_flight_so.Prelude.{
  ◌≡◌, Bool, true, false, List, [], ◌∷◌, ◌++◌, Perm, Bool-cases, inl, inr,
}
use mathlib.Core.Logic.Or
use mathlib.Core.List.{
  Mem, Pairwise, Pairwise-append, mem-cons, not-mem-nil, mem-append, perm_middle,
}
use mathlib.Core.Bool.{Bool-set}
use mathlib.Core.List.Perm
use balloon_suchai_flight_so.Sorting.Partition.{smaller, others}

-- A test for "comes before": no two elements come before each other, and "does not come before" is
-- transitive.
pub record Order {A : Type 0} (lt : A → A → Bool) : Type 0 where
  pub asym : (a b : A) → lt a b ≡ true → lt b a ≡ false
  pub trans : (a b c : A) → lt b a ≡ false → lt c b ≡ false → lt c a ≡ false

module _ {A : Type 0} (lt : A → A → Bool) where
  -- No later element comes before an earlier one.
  abbrev pub IsSorted : List A → Type 0
  IsSorted = Pairwise (λ a b. lt b a ≡ false)

  pub smaller-others-perm :
      (p : A) (xs : List A) → Perm (smaller lt p xs ++ p ∷ others lt p xs) (p ∷ xs)
  smaller-others-perm p [] = Perm.refl (p ∷ [])
  smaller-others-perm p (x ∷ xs) = elim (Bool-cases (lt x p)) [
    | inl less ↦ rw less (Perm.trans (Perm.cons x (smaller-others-perm p xs)) (Perm.swap p x xs))
    | inr more ↦ rw more (
        Perm.trans (Perm.append (Perm.refl (smaller lt p xs)) (Perm.swap x p (others lt p xs))) (
          Perm.trans (perm_middle (smaller lt p xs) (p ∷ others lt p xs))
            (Perm.trans (Perm.cons x (smaller-others-perm p xs)) (Perm.swap p x xs))))
  ]

  pub mem-smaller : (p x : A) (xs : List A) → Mem x (smaller lt p xs) → lt x p ≡ true
  mem-smaller p x [] m = absurd (not-mem-nil m)
  mem-smaller p x (y ∷ xs) m = elim (Bool-cases (lt y p)) [
    | inl less ↦
        Or.elim (Bool-set _ _) (mem-cons.0 (rw less at m)) (λ e. rw e less) (mem-smaller p x xs)
    | inr more ↦ mem-smaller p x xs (rw more at m)
  ]

  pub mem-others : (p x : A) (xs : List A) → Mem x (others lt p xs) → lt x p ≡ false
  mem-others p x [] m = absurd (not-mem-nil m)
  mem-others p x (y ∷ xs) m = elim (Bool-cases (lt y p)) [
    | inl less ↦ mem-others p x xs (rw less at m)
    | inr more ↦
        Or.elim (Bool-set _ _) (mem-cons.0 (rw more at m)) (λ e. rw e more) (mem-others p x xs)
  ]

  module _ (order : Order lt) where
    irrefl : (a : A) → lt a a ≡ false
    irrefl a = elim (Bool-cases (lt a a)) [ inl t ↦ order.asym a a t | inr f ↦ f ]

    -- Two sorted halves round a pivot make a sorted whole.
    pub join-IsSorted :
        (p : A) (xs out_1 out_2 : List A)
        → Perm out_1 (smaller lt p xs ++ p ∷ [])
        → Perm out_2 (others lt p xs)
        → IsSorted out_1
        → IsSorted out_2
        → IsSorted (out_1 ++ out_2)
    join-IsSorted p xs out_1 out_2 q_1 q_2 s_1 s_2 =
        (Pairwise-append (λ a b. Bool-set _ _)).1 (s_1, s_2, across)
      where
        low : (a : A) → Mem a out_1 → lt p a ≡ false
        low a m =
            Or.elim (Bool-set _ _) (mem-append.0 ((Perm.mem_iff q_1).0 m))
              (λ l. order.asym a p (mem-smaller p a xs l))
              (λ l.
                Or.elim (Bool-set _ _) (mem-cons.0 l) (λ e. rw e (irrefl p))
                  (λ n. absurd (not-mem-nil n)))

        across : (a : A) → Mem a out_1 → (b : A) → Mem b out_2 → lt b a ≡ false
        across a m b n = order.trans a p b (low a m) (mem-others p b xs ((Perm.mem_iff q_2).0 n))
