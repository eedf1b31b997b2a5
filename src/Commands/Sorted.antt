-- ===== src/Commands/Sorted.antt =====
-- `sort_cmd_list` of src/system/repoCommand.c sorts the commands by name.
use mathlib.Core.Option.{bind}
use mathlib.Core.List.{Pairwise-singleton}
use mathlib.Core.List.Pairwise
use mathlib.Core.List.Perm
use balloon_suchai_flight_so.Prelude.{
  ℕ, ◌-◌, ◌*◌, ◌<◌, ◌≤◌, ◌≡◌, refl, sym, ap, ◌∙◌, true, false, List, [], ◌∷◌, ◌++◌, some, arith,
  length, Perm, All, lt→ltb, le→ltb,
}
use balloon_suchai_flight_so.Prelude.Text.{Text, strcmp_lt}
use balloon_suchai_flight_so.Sorting.{quicksort_by_name}
use balloon_suchai_flight_so.Sorting.Ordered.{Order, IsSorted}
use balloon_suchai_flight_so.Sorting.Total.{quicksort_by_name_lem}
use balloon_suchai_flight_so.Commands.{
  CmdEntry, Repo, zero_entry, name_of, name_lt, all_named, sort_cmd_list,
}
use balloon_suchai_flight_so.Commands.Lookup.{IsNamed}

strcmp_lt_asym : (a b : Text) → strcmp_lt a b ≡ true → strcmp_lt b a ≡ false
unfolding strcmp_lt
strcmp_lt_asym a [] h = ground arith
strcmp_lt_asym [] (y ∷ b) h = refl
strcmp_lt_asym (x ∷ a) (y ∷ b) h = ground (arith, strcmp_lt_asym a b)

strcmp_lt_trans :
    (a b c : Text) → strcmp_lt b a ≡ false → strcmp_lt c b ≡ false → strcmp_lt c a ≡ false
unfolding strcmp_lt
strcmp_lt_trans [] b c p q = refl
strcmp_lt_trans (x ∷ a) [] c p q = ground arith
strcmp_lt_trans (x ∷ a) (y ∷ b) [] p q = ground arith
strcmp_lt_trans (x ∷ a) (y ∷ b) (z ∷ c) p q = ground (arith, strcmp_lt_trans a b c)

name_lt-Order : Order name_lt
unfolding name_lt
name_lt-Order = record {
  asym = λ a b. strcmp_lt_asym (name_of a) (name_of b);
  trans = λ a b c. strcmp_lt_trans (name_of a) (name_of b) (name_of c);
}

all_named-front :
    (front post : List CmdEntry)
    → All IsNamed front
    → all_named (length front) (front ++ post) ≡ true
unfolding all_named
all_named-front [] post h = refl
all_named-front (e ∷ front) post ((n, q), h) = rw (q, all_named-front front post h) refl

-- A run that does not come to the partition.
sort_short :
    (r : Repo)
    → r.cmd_is_sorted ≡ false
    → r.cmd_index ≤ 1
    → sort_cmd_list r ≡ some (record r { cmd_is_sorted = true })
unfolding sort_cmd_list
sort_short r off short = rw (off, le→ltb 1 r.cmd_index short) refl

sort_long :
    (r : Repo) (es : List CmdEntry)
    → r.cmd_is_sorted ≡ false
    → 1 < r.cmd_index
    → all_named r.cmd_index r.cmd_list ≡ true
    → quicksort_by_name name_lt zero_entry (2 * r.cmd_index) r.cmd_list 0 (r.cmd_index - 1)
      ≡ some es
    → sort_cmd_list r ≡ some (record r { cmd_list = es; cmd_is_sorted = true })
unfolding sort_cmd_list bind
sort_long r es off long named run = rw (off, lt→ltb 1 r.cmd_index long, named, run) refl

at_index :
    (es front post out : List CmdEntry) (i : ℕ)
    → es ≡ front ++ post
    → length front ≡ i
    → quicksort_by_name name_lt zero_entry (2 * length front) (front ++ post) 0 (length front - 1)
      ≡ some out
    → quicksort_by_name name_lt zero_entry (2 * i) es 0 (i - 1) ≡ some out
at_index es front post out i e n run = rw (e, sym n) run

-- What `sort_cmd_list` gives where the flag is cleared.
abbrev Sorts : Repo → List CmdEntry → List CmdEntry → Type 0
Sorts r front post =
    (out : List CmdEntry) × (sort_cmd_list r
      ≡ some (record r { cmd_list = out ++ post; cmd_is_sorted = true }))
    × Perm out front
    × IsSorted name_lt out

module _ (r : Repo) (post : List CmdEntry) (off : r.cmd_is_sorted ≡ false) where
  keeps :
      (front : List CmdEntry)
      → r.cmd_list ≡ front ++ post
      → length front ≡ r.cmd_index
      → length front ≤ 1
      → IsSorted name_lt front
      → Sorts r front post
  keeps front e n short sorted = (
    front,
    sort_short r off (omega (arith, n))
        ∙ ap (λ es. some (record r { cmd_list = es; cmd_is_sorted = true })) e,
    Perm.refl front,
    sorted,
  )

  sorts :
      (front : List CmdEntry)
      → r.cmd_list ≡ front ++ post
      → length front ≡ r.cmd_index
      → All IsNamed front
      → Sorts r front post
  sorts [] e n named = keeps [] e n (omega arith) Pairwise.nil
  sorts (x ∷ []) e n named = keeps (x ∷ []) e n (omega arith) (Pairwise-singleton _ x)
  sorts (x ∷ y ∷ es) e n named =
      let front = x ∷ y ∷ es in
      let (out, run, q, s) =
        quicksort_by_name_lem name_lt zero_entry front post (2 * length front) name_lt-Order
          (omega arith) (omega arith) in
      let at = at_index r.cmd_list front post (out ++ post) r.cmd_index e n run in
      let names : all_named r.cmd_index r.cmd_list ≡ true =
        rw (e, sym n) (all_named-front front post named) in
      (out, sort_long r (out ++ post) off (omega (arith, n)) names at, q, s)

-- Where `cmd_is_sorted` is cleared and the commands below `cmd_index` have names, `sort_cmd_list`
-- ends without a fault: those commands are the same ones, in the order of their names, the slots
-- behind them stay, and the flag is set.
pub sort_cmd_list_sorts :
    (r : Repo) (front post : List CmdEntry)
    → r.cmd_is_sorted ≡ false
    → r.cmd_list ≡ front ++ post
    → length front ≡ r.cmd_index
    → All IsNamed front
    → (out : List CmdEntry) × (sort_cmd_list r
        ≡ some (record r { cmd_list = out ++ post; cmd_is_sorted = true }))
      × Perm out front
      × IsSorted name_lt out
sort_cmd_list_sorts r front post off e n named = sorts r post off front e n named
