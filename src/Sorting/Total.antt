-- ===== src/Sorting/Total.antt =====
-- `quicksort_by_name` of src/system/repoCommand.c ends and sorts.
use balloon_suchai_flight_so.Prelude.{
  ℕ, zero, suc, ◌+◌, ◌-◌, ◌*◌, ◌≤◌, ◌<◌, ◌≡◌, refl, sym, ap, ◌∙◌, Bool, false, List, [], ◌∷◌, ◌++◌,
  append_assoc, some, arith, leb, length, length-append, Perm, Bool-cases, ◌⊎◌, inl, inr, subst,
}
use mathlib.Core.Option.{bind}
use mathlib.Core.List.{Pairwise-singleton, Permᴰ}
use mathlib.Core.Logic.{∥∥₁_elim}
use native.Mathlib.Nat.{ℕ_set}
use mathlib.Core.List.Pairwise
use mathlib.Core.List.Perm
use balloon_suchai_flight_so.Sorting.{partition_loop, quicksort_by_name}
use balloon_suchai_flight_so.Sorting.Partition.{smaller, others, partition_loop_lem}
use balloon_suchai_flight_so.Sorting.Ordered.{Order, IsSorted, smaller-others-perm, join-IsSorted}

List-cases {ℓ} : {A : Type ℓ} (l : List A) → (l ≡ []) ⊎ ((x : A) × (xs : List A) × (l ≡ x ∷ xs))
List-cases [] = inl refl
List-cases (x ∷ xs) = inr (x, xs, refl)

lt→leb : (a b : ℕ) → a < b → leb b a ≡ false
lt→leb a b h = ground arith

length-permᴰ : {A : Type 0} {xs ys : List A} → Permᴰ xs ys → length xs ≡ length ys
length-permᴰ Permᴰ.nil = refl
length-permᴰ (Permᴰ.cons x r) = ap suc (length-permᴰ r)
length-permᴰ (Permᴰ.swap x y) = refl
length-permᴰ (Permᴰ.trans r t) = length-permᴰ r ∙ length-permᴰ t

length-perm : {A : Type 0} {xs ys : List A} → Perm xs ys → length xs ≡ length ys
length-perm q = ∥∥₁_elim q (ℕ_set _ _) length-permᴰ

module _ {A : Type 0} (lt : A → A → Bool) (junk : A) where
  length-split :
      (p : A) (xs : List A) → length (smaller lt p xs) + length (others lt p xs) ≡ length xs
  length-split p [] = omega arith
  length-split p (x ∷ xs) = ground (arith, length-split p xs)

  -- A segment in which the pivot does not go to the last place.
  abbrev Splits : List A → Type 0
  Splits [] = ⊥
  Splits (p ∷ seg) = 0 < length (others lt p seg)

  -- The depth that a segment needs: twice its length, less one where the first partition splits.
  abbrev Enough : ℕ → List A → Type 0
  Enough fuel mid =
      (0 < fuel) × ((2 * length mid ≤ fuel + 1) ⊎ ((2 * length mid ≤ fuel + 2) × Splits mid))

  -- What a call on the segment `mid` of an array gives.
  abbrev Sorts : ℕ → List A → List A → List A → ℕ → ℕ → Type 0
  Sorts fuel pre mid post start last =
      (out : List A) × (quicksort_by_name lt junk fuel (pre ++ (mid ++ post)) start last
        ≡ some (pre ++ (out ++ post)))
      × Perm out mid
      × IsSorted lt out

  short_run :
      (f : ℕ) (c : List A) (start last : ℕ)
      → last ≤ start
      → quicksort_by_name lt junk (suc f) c start last ≡ some c
  unfolding quicksort_by_name
  short_run f c start last h = ground arith

  long_run :
      (f : ℕ) (c c_1 c_2 c_3 : List A) (start last pivot : ℕ)
      → start < last
      → partition_loop lt junk c start (start + 1) (last - start) ≡ (c_1, pivot)
      → quicksort_by_name lt junk f c_1 start pivot ≡ some c_2
      → quicksort_by_name lt junk f c_2 (pivot + 1) last ≡ some c_3
      → quicksort_by_name lt junk (suc f) c start last ≡ some c_3
  unfolding quicksort_by_name bind
  long_run f c c_1 c_2 c_3 start last pivot h e q r = rw (lt→leb start last h, e, q, r) refl

  -- The last element of a segment stays behind a pivot that it is not smaller than.
  last-others :
      (x : A) (xs : List A) (p : A) → lt p x ≡ false → 0 < length (others lt x (xs ++ p ∷ []))
  last-others x [] p h = rw h (omega arith)
  last-others x (y ∷ xs) p h = ground (arith, last-others x xs p h)

  module _ (order : Order lt) where
    -- Behind a partition whose pivot went last, the first element is smaller than the last.
    Splits-rotated :
        (p : A) (xs : List A)
        → others lt p xs ≡ []
        → 0 < length xs
        → Splits (smaller lt p xs ++ p ∷ [])
    Splits-rotated p [] e h = absurd (omega arith)
    Splits-rotated p (x ∷ xs) e h = elim (Bool-cases (lt x p)) [
      | inr more ↦ absurd (ground arith)
      | inl less ↦ rw less (last-others x (smaller lt p xs) p (order.asym x p less))
    ]

    Enough-left :
        (f : ℕ) (p : A) (xs : List A)
        → 0 < length xs
        → Enough (suc f) (p ∷ xs)
        → Enough f (smaller lt p xs ++ p ∷ [])
    Enough-left f p xs some_xs enough =
        let sizes = length-split p xs in
        let lo_size = length-append (smaller lt p xs) (p ∷ []) in
        elim (List-cases (others lt p xs)) [
          | inl e ↦ (
            omega arith,
            inr (omega (arith, sizes, lo_size, ap length e), Splits-rotated p xs e some_xs),
          )
          | inr (y, ys, e) ↦ (omega arith, inl (omega (arith, sizes, lo_size, ap length e)))
        ]

    sorts :
        (f : ℕ) (pre mid post : List A) (start last : ℕ)
        → Enough f mid
        → length pre ≡ start
        → suc last ≡ start + length mid
        → Sorts f pre mid post start last
    sorts zero pre mid post start last enough hs hl = absurd (omega arith)
    sorts (suc f) pre [] post start last enough hs hl =
        ([], short_run f _ start last (omega arith), Perm.nil, Pairwise.nil)
    sorts (suc f) pre (p ∷ []) post start last enough hs hl =
        (p ∷ [], short_run f _ start last (omega arith), Perm.refl _, Pairwise-singleton _ p)
    sorts (suc f) pre (p ∷ x ∷ seg) post start last enough hs hl =
        let xs = x ∷ seg in
        let lo = smaller lt p xs in
        let hi = others lt p xs in
        let sizes = length-split p xs in
        let lo_size = length-append lo (p ∷ []) in
        let pivot = length pre + length lo in
        let left : Enough f (lo ++ p ∷ []) = Enough-left f p xs (omega arith) enough in
        let right : Enough f hi = (omega arith, inl (omega (arith, sizes))) in
        let (out_1, run_1, q_1, s_1) =
          sorts f pre (lo ++ p ∷ []) (hi ++ post) start pivot left hs (omega (arith, lo_size)) in
        let size_1 = length-perm q_1 in
        let (out_2, run_2, q_2, s_2) =
          sorts f (pre ++ out_1) hi post (pivot + 1) last right
            (omega (arith, length-append pre out_1, size_1, lo_size)) (omega (arith, sizes)) in
        let split = partition_loop_lem lt junk pre p xs post in
        let regroup : (lo ++ p ∷ []) ++ (hi ++ post) ≡ lo ++ p ∷ (hi ++ post) =
          append_assoc lo (p ∷ []) (hi ++ post) in
        (
          out_1 ++ out_2,
          long_run f (pre ++ (p ∷ (xs ++ post))) (pre ++ (lo ++ p ∷ (hi ++ post)))
              ((pre ++ out_1) ++ (hi ++ post)) (pre ++ ((out_1 ++ out_2) ++ post)) start last pivot
              (omega arith)
              (ap (λ n. partition_loop lt junk (pre ++ (p ∷ (xs ++ post))) n (n + 1) (last - n))
                  (sym hs)
                ∙ ap
                    (λ n.
                      partition_loop lt junk (pre ++ (p ∷ (xs ++ post))) (length pre)
                        (length pre + 1) n)
                    (omega arith)
                ∙ split)
              (ap (λ c. quicksort_by_name lt junk f (pre ++ c) start pivot) (sym regroup)
                ∙ run_1
                ∙ ap some (sym (append_assoc pre out_1 (hi ++ post))))
              (run_2
                ∙ ap some (
                    append_assoc pre out_1 (out_2 ++ post)
                    ∙ ap (◌++◌ pre) (sym (append_assoc out_1 out_2 post)))),
          Perm.trans (Perm.append q_1 q_2) (
              subst (λ l. Perm l (p ∷ xs)) (sym (append_assoc lo (p ∷ []) hi))
                (smaller-others-perm lt p xs)),
          join-IsSorted lt order p xs out_1 out_2 q_1 q_2 s_1 s_2,
        )

-- On the first elements of an array, at least one, `quicksort_by_name` ends within a recursion
-- depth of twice their number, leaves the same elements in order, and does not touch the rest.
pub quicksort_by_name_lem :
    {A : Type 0} (lt : A → A → Bool) (junk : A) (xs post : List A) (fuel : ℕ)
    → Order lt
    → 0 < length xs
    → 2 * length xs ≤ fuel + 1
    → (out : List A) × (quicksort_by_name lt junk fuel (xs ++ post) 0 (length xs - 1)
        ≡ some (out ++ post))
      × Perm out xs
      × IsSorted lt out
quicksort_by_name_lem lt junk xs post fuel order some_xs enough =
    sorts lt junk order fuel [] xs post 0 (length xs - 1) (omega arith, inl enough) refl
      (omega arith)
