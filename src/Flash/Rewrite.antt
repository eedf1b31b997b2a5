-- ===== src/Flash/Rewrite.antt =====
-- How `flight_plan_erase_index` of src/drivers/nanomind/data_storage.c writes the entries back.
use balloon_suchai_flight_so.Prelude.{
  ℕ, zero, suc, ◌+◌, ◌*◌, ◌%◌, ◌<◌, ◌≤◌, ◌^◌, ◌≡◌, ◌≢◌, refl, ap, ap₂, sym, inl, inr, ◌∙◌, arith,
  Bool, true, false, List, [], ◌++◌, append_assoc, length, if◌then◌else◌, ◌==◌, Bool-cases,
}
use balloon_suchai_flight_so.Prelude.Upto.{upto, upto-append, upto-list, length-upto}
use balloon_suchai_flight_so.Prelude.Words.{u32_mod}
use balloon_suchai_flight_so.Flash.{Flash, Addresses, max_command_size, blank_byte}
use balloon_suchai_flight_so.Flash.Plan.{rewrite_from, read}

is_zero-false : (n : ℕ) → n ≢ 0 → (n == 0) ≡ false
is_zero-false n h = ground (arith, h)

module _ {F : Type 0} (flash : Flash F) (addresses : Addresses) (word : ℕ → List ℕ)
    (number : List ℕ → ℕ) (section_data : ℕ → ℕ) (gone : ℕ) where
  -- The bytes of entry `i`, and those of the entries from `i` on but the one that goes.
  abbrev pub entry : ℕ → List ℕ
  entry i = upto section_data (i * max_command_size) max_command_size

  unfoldable pub kept : ℕ → ℕ → List ℕ
  kept i zero = []
  kept i (suc rounds) =
      let rest = kept (i + 1) rounds in if i == gone then rest else entry i ++ rest

  unfoldable pub count : ℕ → ℕ → ℕ
  count i zero = 0
  count i (suc rounds) = let rest = count (i + 1) rounds in if i == gone then rest else rest + 1

  count-le : (i rounds : ℕ) → count i rounds ≤ rounds
  unfolding count
  count-le i zero = omega arith
  count-le i (suc rounds) =
      let le = count-le (i + 1) rounds in
      elim (Bool-cases (i == gone)) [
        | inl e ↦ rw e (omega (arith, le))
        | inr e ↦ rw e (omega (arith, le))
      ]

  -- The time of entry `i`.
  abbrev pub time_at : ℕ → ℕ
  time_at i = number (upto section_data (i * max_command_size) 4)

  -- Writes succeed.
  abbrev pub Writes : Type 0
  Writes = (a : ℕ) (bs : List ℕ) (f : F) → (flash.write_data a bs f).0 ≡ 0

  -- What the loop leaves: the entries counted and written one behind the other from `add` on, and
  -- the flash below as it was.
  pub record Written (i rounds add written : ℕ) (f : F) : Type 0 where
    pub after : F
    pub runs :
        rewrite_from flash addresses word number section_data gone i rounds add written f
        ≡ (written + count i rounds, false, after)
    pub bytes :
        read flash addresses word number add (count i rounds * max_command_size) after
        ≡ kept i rounds
    pub below : (k : ℕ) → k < add → flash.byte k after ≡ flash.byte k f
    pub above :
        (k : ℕ) → add + count i rounds * max_command_size ≤ k → flash.byte k after ≡ flash.byte k f

  count-gone : (i rounds : ℕ) → (i == gone) ≡ true → count i (suc rounds) ≡ count (i + 1) rounds
  unfolding count
  count-gone i rounds e = rw e refl

  count-other :
      (i rounds : ℕ) → (i == gone) ≡ false → count i (suc rounds) ≡ count (i + 1) rounds + 1
  unfolding count
  count-other i rounds e = rw e refl

  kept-gone : (i rounds : ℕ) → (i == gone) ≡ true → kept i (suc rounds) ≡ kept (i + 1) rounds
  unfolding kept
  kept-gone i rounds e = rw e refl

  kept-other :
      (i rounds : ℕ) → (i == gone) ≡ false → kept i (suc rounds) ≡ entry i ++ kept (i + 1) rounds
  unfolding kept
  kept-other i rounds e = rw e refl

  abbrev rewrite : ℕ → ℕ → ℕ → ℕ → F → ℕ × Bool × F
  rewrite = rewrite_from flash addresses word number section_data gone

  rewrite-gone :
      (i rounds add written : ℕ) (f : F)
      → (i == gone) ≡ true
      → rewrite i (suc rounds) add written f ≡ rewrite (i + 1) rounds add written f
  unfolding rewrite_from
  rewrite-gone i rounds add written f e = rw e refl

  rewrite-other :
      (i rounds add written : ℕ) (f : F)
      → (i == gone) ≡ false
      → (time_at i == 0) ≡ false
      → (flash.write_data add (entry i) f).0 ≡ 0
      → (add + max_command_size) % u32_mod ≡ add + max_command_size
      → rewrite i (suc rounds) add written f
        ≡ rewrite
            (i + 1)
            rounds
            (add + max_command_size)
            (written + 1)
            (flash.write_data add (entry i) f).1
  unfolding rewrite_from
  rewrite-other i rounds add written f e there ok next = rw (e, there, ok, next) refl

  pub rewrite-Written :
      (i rounds add written : ℕ) (f : F)
      → Writes
      → add + rounds * max_command_size < 2 ^ 32
      → ((j : ℕ) → i ≤ j → j < i + rounds → time_at j ≢ 0)
      → ((k : ℕ) → k < rounds * max_command_size → flash.byte (add + k) f ≡ blank_byte)
      → Written i rounds add written f
  unfolding rewrite_from count kept
  rewrite-Written i zero add written f w fits times clean = record {
    after = f;
    runs = ap (λ (n : ℕ). (n, false, f)) (omega arith);
    bytes = refl;
    below = λ k l. refl;
    above = λ k l. refl;
  }
  rewrite-Written i (suc rounds) add written f w fits times clean = elim (Bool-cases (i == gone)) [
    | inl e ↦
        let ih =
          rewrite-Written (i + 1) rounds add written f w (omega (arith, fits))
            (λ j l g. times j (omega arith) (omega arith)) (λ k l. clean k (omega arith)) in
        record {
          after = ih.after;
          runs =
              rewrite-gone i rounds add written f e
              ∙ ih.runs
              ∙ ap (λ (n : ℕ). (written + n, false, ih.after)) (sym (count-gone i rounds e));
          bytes =
              ap (λ (n : ℕ). upto (λ k. flash.byte k ih.after) add (n * max_command_size))
                (count-gone i rounds e)
              ∙ ih.bytes
              ∙ sym (kept-gone i rounds e);
          below = ih.below;
          above = λ k l. ih.above k (omega (arith, l, count-gone i rounds e));
        }
    | inr e ↦
        let f_1 : F = (flash.write_data add (entry i) f).1 in
        let ok : (flash.write_data add (entry i) f).0 ≡ 0 = w add (entry i) f in
        let done : flash.write_data add (entry i) f ≡ (0, f_1) = ap (λ x. (x, f_1)) ok in
        let long : length (entry i) ≡ max_command_size =
          length-upto section_data (i * max_command_size) max_command_size in
        let next : (add + max_command_size) % u32_mod ≡ add + max_command_size =
          ground (arith, fits) in
        let there : (time_at i == 0) ≡ false =
          is_zero-false (time_at i) (times i (omega arith) (omega arith)) in
        let ih =
          rewrite-Written (i + 1) rounds (add + max_command_size) (written + 1) f_1 w
            (omega (arith, fits)) (λ j l g. times j (omega arith) (omega arith))
            (λ k l.
              flash.kept add (entry i) f f_1 (add + max_command_size + k) done
                (inr (omega (arith, long)))
              ∙ ap (λ a. flash.byte a f) (omega arith)
              ∙ clean (max_command_size + k) (omega arith)) in
        let g = λ (k : ℕ). flash.byte k ih.after in
        let c = count (i + 1) rounds in
        let first : upto g add max_command_size ≡ entry i =
          ap (upto g add) (sym long)
          ∙ upto-list g add (entry i) (λ k l.
            ih.below (add + k) (omega (arith, long, l))
            ∙ flash.written add (entry i) f f_1 k done l (clean k (omega (arith, long, l)))) in
        let all : upto g add ((c + 1) * max_command_size) ≡ entry i ++ kept (i + 1) rounds =
          sym (
            upto-append g add max_command_size (c * max_command_size) ((c + 1) * max_command_size)
              (omega arith))
          ∙ ap₂ ◌++◌ first ih.bytes in
        let total : written + 1 + c ≡ written + (c + 1) = omega arith in
        record {
          after = ih.after;
          runs =
              rewrite-other i rounds add written f e there ok next
              ∙ ih.runs
              ∙ ap (λ (n : ℕ). (n, false, ih.after)) total
              ∙ ap (λ (n : ℕ). (written + n, false, ih.after)) (sym (count-other i rounds e));
          bytes =
              ap (λ (n : ℕ). upto g add (n * max_command_size)) (count-other i rounds e)
              ∙ all
              ∙ sym (kept-other i rounds e);
          below = λ k l. ih.below k (omega arith) ∙ flash.kept add (entry i) f f_1 k done (inl l);
          above = λ k l.
              ih.above k (omega (arith, l, count-other i rounds e))
              ∙ flash.kept add (entry i) f f_1 k done
                  (inr (omega (arith, l, long, count-other i rounds e)));
        }
  ]

  count-behind : (i rounds : ℕ) → gone < i → count i rounds ≡ rounds
  unfolding count
  count-behind i zero h = refl
  count-behind i (suc rounds) h =
      count-other i rounds (ground (arith, h))
      ∙ ap (λ (n : ℕ). n + 1) (count-behind (i + 1) rounds (omega (arith, h)))
      ∙ omega arith

  pub count-drop : (i rounds a b : ℕ) → gone ≡ i + a → rounds ≡ a + 1 + b → count i rounds ≡ a + b
  unfolding count
  count-drop i zero a b h e = absurd (omega (arith, e))
  count-drop i (suc rounds) zero b h e =
      count-gone i rounds (ground (arith, h))
      ∙ count-behind (i + 1) rounds (omega (arith, h))
      ∙ omega (arith, e)
  count-drop i (suc rounds) (suc a) b h e =
      count-other i rounds (ground (arith, h))
      ∙ ap (λ (n : ℕ). n + 1) (count-drop (i + 1) rounds a b (omega (arith, h)) (omega (arith, e)))
      ∙ omega arith

  kept-behind :
      (i rounds : ℕ)
      → gone < i
      → kept i rounds ≡ upto section_data (i * max_command_size) (rounds * max_command_size)
  unfolding kept
  kept-behind i zero h = refl
  kept-behind i (suc rounds) h =
      kept-other i rounds (ground (arith, h))
      ∙ ap (λ l. entry i ++ l)
          (kept-behind (i + 1) rounds (omega (arith, h))
            ∙ ap (λ (n : ℕ). upto section_data n (rounds * max_command_size)) (omega arith))
      ∙ upto-append section_data (i * max_command_size) max_command_size (rounds * max_command_size)
          (suc rounds * max_command_size) (omega arith)

  -- The entries that are kept are those before the one that goes, and those behind it.
  pub kept-drop :
      (i rounds a b : ℕ)
      → gone ≡ i + a
      → rounds ≡ a + 1 + b
      → kept i rounds
        ≡ upto section_data (i * max_command_size) (a * max_command_size)
          ++ upto section_data ((gone + 1) * max_command_size) (b * max_command_size)
  unfolding kept
  kept-drop i zero a b h e = absurd (omega (arith, e))
  kept-drop i (suc rounds) zero b h e =
      kept-gone i rounds (ground (arith, h))
      ∙ kept-behind (i + 1) rounds (omega (arith, h))
      ∙ ap₂ (λ (k n : ℕ). upto section_data (k * max_command_size) (n * max_command_size))
          (omega (arith, h)) (omega (arith, e))
  kept-drop i (suc rounds) (suc a) b h e =
      let behind = upto section_data ((gone + 1) * max_command_size) (b * max_command_size) in
      let before =
        upto section_data (i * max_command_size + max_command_size) (a * max_command_size) in
      kept-other i rounds (ground (arith, h))
      ∙ ap (λ l. entry i ++ l) (kept-drop (i + 1) rounds a b (omega (arith, h)) (omega (arith, e)))
      ∙ ap (λ (n : ℕ). entry i ++ (upto section_data n (a * max_command_size) ++ behind))
          (omega arith)
      ∙ sym (append_assoc (entry i) before behind)
      ∙ ap (λ l. l ++ behind)
          (upto-append section_data (i * max_command_size) max_command_size (a * max_command_size)
            (suc a * max_command_size) (omega arith))
