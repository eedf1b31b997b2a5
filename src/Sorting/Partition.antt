-- ===== src/Sorting/Partition.antt =====
-- The partition loop of `quicksort_by_name`, src/system/repoCommand.c, on the segment it works on.
use balloon_suchai_flight_so.Prelude.{
  ℕ, suc, ◌+◌, ◌-◌, ◌≡◌, refl, sym, ap, ap₂, ◌∙◌, Bool, true, false, List, [], ◌∷◌, ◌++◌, arith,
  if◌then◌else◌, length, length-append, get_or, set, Bool-cases, inl, inr,
}
use balloon_suchai_flight_so.Sorting.{shift, move_before, partition_loop}

module _ {ℓ} {A : Type ℓ} where
  -- The array that a place splits: what lies before it, last first, and what lies from it on.
  abbrev rev_onto : List A → List A → List A
  rev_onto [] r = r
  rev_onto (z ∷ l) r = rev_onto l (z ∷ r)

  rev_onto-rev_onto : (xs l r : List A) → rev_onto (rev_onto xs l) r ≡ rev_onto l (xs ++ r)
  rev_onto-rev_onto [] l r = refl
  rev_onto-rev_onto (x ∷ xs) l r = rev_onto-rev_onto xs (x ∷ l) r

  length-rev_onto : (xs l : List A) → length (rev_onto xs l) ≡ length xs + length l
  length-rev_onto [] l = omega arith
  length-rev_onto (x ∷ xs) l = omega (arith, length-rev_onto xs (x ∷ l))

  rev_onto-append : (k l r : List A) → rev_onto (k ++ l) r ≡ rev_onto l (rev_onto k r)
  rev_onto-append [] l r = refl
  rev_onto-append (z ∷ k) l r = rev_onto-append k l (z ∷ r)

  get-rev_onto :
      (l r : List A) (k : ℕ) (d : A) → get_or (rev_onto l r) (length l + k) d ≡ get_or r k d
  get-rev_onto [] r k d = ap (λ n. get_or r n d) (omega arith)
  get-rev_onto (z ∷ l) r k d =
      ap (λ n. get_or (rev_onto l (z ∷ r)) n d) (omega arith) ∙ get-rev_onto l (z ∷ r) (suc k) d

  set-rev_onto :
      (l r : List A) (k : ℕ) (v : A) → set (rev_onto l r) (length l + k) v ≡ rev_onto l (set r k v)
  set-rev_onto [] r k v = ap (λ n. set r n v) (omega arith)
  set-rev_onto (z ∷ l) r k v =
      ap (λ n. set (rev_onto l (z ∷ r)) n v) (omega arith) ∙ set-rev_onto l (z ∷ r) (suc k) v

  get-here : (l r : List A) (x d : A) → get_or (rev_onto l (x ∷ r)) (length l) d ≡ x
  get-here l r x d =
      ap (λ n. get_or (rev_onto l (x ∷ r)) n d) (omega arith) ∙ get-rev_onto l (x ∷ r) 0 d

  set-here : (l r : List A) (x v : A) → set (rev_onto l (x ∷ r)) (length l) v ≡ rev_onto l (v ∷ r)
  set-here l r x v =
      ap (λ n. set (rev_onto l (x ∷ r)) n v) (omega arith) ∙ set-rev_onto l (x ∷ r) 0 v

module _ {ℓ} {A : Type ℓ} (lt : A → A → Bool) where
  -- The part of a list that is smaller than the pivot, and the rest, each in order.
  abbrev pub smaller : A → List A → List A
  smaller p [] = []
  smaller p (x ∷ xs) = if lt x p then x ∷ smaller p xs else smaller p xs

  abbrev pub others : A → List A → List A
  others p [] = []
  others p (x ∷ xs) = if lt x p then others p xs else x ∷ others p xs

module _ {ℓ} {A : Type ℓ} (lt : A → A → Bool) (junk : A) where
  -- The shifting loop and the write after it rotate an element to the front of a segment.
  rotates :
      (k l r : List A) (y v : A)
      → set (shift lt junk (rev_onto (k ++ l) (y ∷ r)) (length (k ++ l)) (length k)) (length l) v
        ≡ rev_onto l (v ∷ rev_onto k r)
  unfolding shift
  rotates [] l r y v = set-here l r y v
  rotates (z ∷ k) l r y v =
      let m = length (k ++ l) in
      let c = rev_onto (k ++ l) (z ∷ y ∷ r) in
      let back : suc m - 1 ≡ m = omega arith in
      let over : set c (suc m) z ≡ rev_onto (k ++ l) (z ∷ z ∷ r) =
        ap (λ n. set c n z) (omega arith) ∙ set-rev_onto (k ++ l) (z ∷ y ∷ r) 1 z in
      ap (λ n. set (shift lt junk (set c (suc m) (get_or c n junk)) n (length k)) (length l) v) back
      ∙ ap (λ x. set (shift lt junk (set c (suc m) x) m (length k)) (length l) v)
          (get-here (k ++ l) (y ∷ r) z junk)
      ∙ ap (λ d. set (shift lt junk d m (length k)) (length l) v) over
      ∙ rotates k l (z ∷ r) z v

  -- The loop's array: `l` is what lies before the pivot `p`, last first, and `g` what lies between
  -- the pivot and the place of `i`, last first.
  abbrev loop_array : List A → A → List A → List A → List A
  loop_array l p g r = rev_onto l (p ∷ rev_onto g r)

  loop_array-zip : (l g r : List A) (p : A) → loop_array l p g r ≡ rev_onto ((g ++ p ∷ []) ++ l) r
  loop_array-zip l g r p =
      sym (rev_onto-append (g ++ p ∷ []) l r ∙ ap (rev_onto l) (rev_onto-append g (p ∷ []) r))

  length-zip : (l g : List A) (p : A) → length ((g ++ p ∷ []) ++ l) ≡ length l + 1 + length g
  length-zip l g p = omega (arith, length-append (g ++ p ∷ []) l, length-append g (p ∷ []))

  get-loop_array :
      (l g r : List A) (p x : A)
      → get_or (loop_array l p g (x ∷ r)) (length l + 1 + length g) junk ≡ x
  get-loop_array l g r p x =
      ap₂ (λ c n. get_or c n junk) (loop_array-zip l g (x ∷ r) p) (sym (length-zip l g p))
      ∙ get-here ((g ++ p ∷ []) ++ l) r x junk

  move_before_lem :
      (l g r : List A) (p x : A)
      → move_before lt junk (loop_array l p g (x ∷ r)) (length l) (length l + 1 + length g)
        ≡ loop_array (x ∷ l) p g r
  unfolding move_before
  move_before_lem l g r p x =
      let k = g ++ p ∷ [] in
      let i = length l + 1 + length g in
      let far : i - length l ≡ length k = omega (arith, length-append g (p ∷ [])) in
      let c = loop_array l p g (x ∷ r) in
      ap (λ v. set (shift lt junk c i (i - length l)) (length l) v) (get-loop_array l g r p x)
      ∙ ap (λ n. set (shift lt junk c i n) (length l) x) far
      ∙ ap₂ (λ d n. set (shift lt junk d n (length k)) (length l) x) (loop_array-zip l g (x ∷ r) p)
          (sym (length-zip l g p))
      ∙ rotates k l r x x
      ∙ ap (λ t. rev_onto l (x ∷ t)) (rev_onto-append g (p ∷ []) r)

  loop_less :
      (c : List A) (pivot i n : ℕ) {x p : A}
      → get_or c i junk ≡ x
      → get_or c pivot junk ≡ p
      → lt x p ≡ true
      → partition_loop lt junk c pivot i (suc n)
        ≡ partition_loop lt junk (move_before lt junk c pivot i) (pivot + 1) (i + 1) n
  unfolding partition_loop
  loop_less c pivot i n e f less = rw (e, f, less) refl

  loop_more :
      (c : List A) (pivot i n : ℕ) {x p : A}
      → get_or c i junk ≡ x
      → get_or c pivot junk ≡ p
      → lt x p ≡ false
      → partition_loop lt junk c pivot i (suc n) ≡ partition_loop lt junk c pivot (i + 1) n
  unfolding partition_loop
  loop_more c pivot i n e f more = rw (e, f, more) refl

  partition_loop-rev :
      (l : List A) (p : A) (g seg post : List A)
      → partition_loop lt junk
          (loop_array l p g (seg ++ post))
          (length l)
          (length l + 1 + length g)
          (length seg)
        ≡ (
          loop_array (rev_onto (smaller lt p seg) l) p (rev_onto (others lt p seg) g) post,
          length (rev_onto (smaller lt p seg) l),
        )
  unfolding partition_loop
  partition_loop-rev l p g [] post = refl
  partition_loop-rev l p g (x ∷ seg) post =
      let c = loop_array l p g (x ∷ (seg ++ post)) in
      let i = length l + 1 + length g in
      let here = get-here l (rev_onto g (x ∷ (seg ++ post))) p junk in
      let there = get-loop_array l g (seg ++ post) p x in
      elim (Bool-cases (lt x p)) [
        | inl less ↦
            loop_less c (length l) i (length seg) there here less
            ∙ ap (λ d. partition_loop lt junk d (length l + 1) (i + 1) (length seg))
                (move_before_lem l g (seg ++ post) p x)
            ∙ ap₂
                (λ n j.
                  partition_loop lt junk (loop_array (x ∷ l) p g (seg ++ post)) n j (length seg))
                (omega arith) (omega arith)
            ∙ partition_loop-rev (x ∷ l) p g seg post
            ∙ rw less refl
        | inr more ↦
            loop_more c (length l) i (length seg) there here more
            ∙ ap (λ j. partition_loop lt junk c (length l) j (length seg)) (omega arith)
            ∙ partition_loop-rev l p (x ∷ g) seg post
            ∙ rw more refl
      ]

  -- The loop puts the smaller elements of the segment before the pivot and the others behind it,
  -- both in their order, leaves the rest of the array, and gives the pivot's place.
  pub partition_loop_lem :
      (pre : List A) (p : A) (seg post : List A)
      → partition_loop lt junk (pre ++ p ∷ (seg ++ post)) (length pre) (length pre + 1) (length seg)
        ≡ (
          pre ++ (smaller lt p seg ++ p ∷ (others lt p seg ++ post)),
          length pre + length (smaller lt p seg),
        )
  partition_loop_lem pre p seg post =
      let l = rev_onto pre [] in
      let size : length l ≡ length pre = omega (arith, length-rev_onto pre []) in
      let flat = λ (r : List A). rev_onto-rev_onto pre [] r in
      ap₂ (λ c n. partition_loop lt junk c n (n + 1) (length seg)) (sym (flat (p ∷ (seg ++ post))))
        (sym size)
      ∙ ap (λ i. partition_loop lt junk (loop_array l p [] (seg ++ post)) (length l) i (length seg))
          (omega arith)
      ∙ partition_loop-rev l p [] seg post
      ∙ ap₂ (λ c n. (c, n))
          (rev_onto-rev_onto (smaller lt p seg) l _
            ∙ flat _
            ∙ ap (λ t. pre ++ (smaller lt p seg ++ p ∷ t))
                (rev_onto-rev_onto (others lt p seg) [] post))
          (omega (arith, length-rev_onto (smaller lt p seg) l, length-rev_onto pre []))
