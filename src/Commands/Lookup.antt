-- ===== src/Commands/Lookup.antt =====
-- Lookup by name in the command repository of src/system/repoCommand.c: `cmd_add` and `cmd_get_str`.
use mathlib.Core.Option.{bind}
use balloon_suchai_flight_so.Prelude.{
  ℕ, zero, suc, ◌+◌, ◌-◌, ◌<◌, ◌≡◌, ◌≢◌, refl, sym, ap, ◌∙◌, Bool, not, ◌&&◌, true, false, List, [],
  ◌∷◌, none, some, arith, ◌==◌, ltb, if◌then◌else◌, length, get_or, set, All, lt→ltb, length-set,
  get_or-set, Bool-cases, inl, inr, ==_iff,
}
use balloon_suchai_flight_so.Prelude.Words.{slt}
use balloon_suchai_flight_so.Prelude.Text.{Text, codes, strcmp_lt, strcmp_eq}
use balloon_suchai_flight_so.Commands.{
  max_entries, CmdEntry, Repo, zero_entry, new_entry, still_sorted, cmd_add, cmd_of, cmd_get_idx,
  find_name, cmd_get_str,
}

-- The slot has a name.
abbrev pub IsNamed : CmdEntry → Type 0
IsNamed e = (n : Text) × (e.name ≡ some n)

-- The array has its 65 slots, and each has a name, as `cmd_repo_init` leaves them.
abbrev pub IsValid : Repo → Type 0
IsValid r = (length r.cmd_list ≡ max_entries) × All IsNamed r.cmd_list

pub strcmp_eq_refl : (a : Text) → strcmp_eq a a ≡ true
unfolding strcmp_eq
strcmp_eq_refl [] = refl
strcmp_eq_refl (x ∷ a) = rw (strcmp_eq_refl a) (ground arith)

strcmp_eq→≡ : (a b : Text) → strcmp_eq a b ≡ true → a ≡ b
unfolding strcmp_eq
strcmp_eq→≡ [] [] h = refl
strcmp_eq→≡ [] (y ∷ b) h = ground arith
strcmp_eq→≡ (x ∷ a) [] h = ground arith
strcmp_eq→≡ (x ∷ a) (y ∷ b) h = elim (Bool-cases (x == y)) [
  | inl e ↦ rw ((==_iff x y).0 e, strcmp_eq→≡ a b (rw e at h)) refl
  | inr e ↦ ground (arith, rw e at h)
]

pub strcmp_eq-≢ : (a b : Text) → a ≢ b → strcmp_eq a b ≡ false
strcmp_eq-≢ a b h = elim (Bool-cases (strcmp_eq a b)) [
  | inl e ↦ absurd (h (strcmp_eq→≡ a b e))
  | inr e ↦ e
]

find_name_skip :
    (name n : Text) (i : ℕ) (e : CmdEntry) (es : List CmdEntry)
    → e.name ≡ some n
    → e.name ≢ some name
    → find_name name i (e ∷ es) ≡ find_name name (i + 1) es
unfolding find_name
find_name_skip name n i e es q ne = rw (q, strcmp_eq-≢ name n (λ s. ne (q ∙ ap some (sym s)))) refl

pub find_name_first :
    (name : Text) (i k : ℕ) (es : List CmdEntry)
    → All IsNamed es
    → k < length es
    → (get_or es k zero_entry).name ≡ some name
    → ((j : ℕ) → j < k → (get_or es j zero_entry).name ≢ some name)
    → find_name name i es ≡ some (some (i + k))
unfolding find_name
find_name_first name i k [] all h here before = absurd (omega arith)
find_name_first name i zero (e ∷ es) all h here before =
    rw (here, strcmp_eq_refl name) (ap (λ x. some (some x)) (omega arith))
find_name_first name i (suc k) (e ∷ es) ((n, q), all) h here before =
    find_name_skip name n i e es q (before 0 (omega arith))
    ∙ find_name_first name (i + 1) k es all (omega arith) here (λ j l. before (suc j) (omega arith))
    ∙ ap (λ x. some (some x)) (omega arith)

find_name-none :
    (name : Text) (i : ℕ) (es : List CmdEntry)
    → All IsNamed es
    → All (λ e. e.name ≢ some name) es
    → find_name name i es ≡ some none
unfolding find_name
find_name-none name i [] all h = refl
find_name-none name i (e ∷ es) ((n, q), all) (ne, h) =
    find_name_skip name n i e es q ne ∙ find_name-none name (i + 1) es all h

-- In a repository with 65 named slots, as `cmd_repo_init` leaves it, `cmd_get_str` makes a new
-- command of the first slot that has the name.
pub get_str_first :
    (name : Text) (r : Repo) (k : ℕ)
    → IsValid r
    → k < max_entries
    → (get_or r.cmd_list k zero_entry).name ≡ some name
    → ((j : ℕ) → j < k → (get_or r.cmd_list j zero_entry).name ≢ some name)
    → cmd_get_str name r ≡ some (some (cmd_of k (get_or r.cmd_list k zero_entry)))
unfolding cmd_get_str cmd_get_idx bind
get_str_first name r k (size, all) h here before =
    let found : find_name name 0 r.cmd_list ≡ some (some k) =
      find_name_first name 0 k r.cmd_list all (omega (arith, size)) here before
      ∙ ap (λ x. some (some x)) (omega arith) in
    rw (found, in_range k h, size, lt→ltb k max_entries h) refl
  where
    in_range : (k : ℕ) → k < 65 → slt k 65 ≡ true
    in_range k h = ground arith

-- In a repository with 65 named slots, as `cmd_repo_init` leaves it, `cmd_get_str` gives NULL where
-- no slot has the name.
get_str_absent :
    (name : Text) (r : Repo)
    → IsValid r
    → All (λ e. e.name ≢ some name) r.cmd_list
    → cmd_get_str name r ≡ some none
unfolding cmd_get_str bind
get_str_absent name r (size, all) unnamed =
    let found = find_name-none name 0 r.cmd_list all unnamed in rw found refl

All-set :
    (es : List CmdEntry) (i : ℕ) (e : CmdEntry)
    → All IsNamed es
    → IsNamed e
    → All IsNamed (set es i e)
All-set [] i e all p = tt
All-set (x ∷ es) zero e (q, all) p = (p, all)
All-set (x ∷ es) (suc i) e (q, all) p = (q, All-set es i e all p)

All-get_or :
    (es : List CmdEntry) (i : ℕ) → i < length es → All IsNamed es → IsNamed (get_or es i zero_entry)
All-get_or [] i h all = elim h [ ]
All-get_or (x ∷ es) zero h (p, all) = p
All-get_or (x ∷ es) (suc i) h (p, all) = All-get_or es i (omega arith) all

still_sorted-some :
    (r : Repo) (prev : CmdEntry) (name : Text)
    → IsNamed prev
    → (flag : Bool) × (still_sorted r prev name ≡ some flag)
unfolding still_sorted
still_sorted-some r prev name (n, q) = rw q (
    if_some (not (strcmp_eq name (codes "null")) && r.cmd_is_sorted && ltb 1 r.cmd_index)
      (if strcmp_lt name n then false else r.cmd_is_sorted) r.cmd_is_sorted)
  where
    if_some : (c x y : Bool) → (flag : Bool) × ((if c then some x else some y) ≡ some flag)
    if_some true x y = (x, refl)
    if_some false x y = (y, refl)

stored :
    (es : List CmdEntry) (i : ℕ) (e : CmdEntry)
    → i < length es
    → (get_or (set es i e) i zero_entry ≡ e)
      × ((j : ℕ) → j ≢ i → get_or (set es i e) j zero_entry ≡ get_or es j zero_entry)
stored es i e h = (
  get_or-set es i i e zero_entry h ∙ ground arith,
  λ j ne. get_or-set es i j e zero_entry h ∙ rw (other i j ne) refl,
)
  where
    other : (i j : ℕ) → j ≢ i → (i == j) ≡ false
    other i j ne = ground arith

-- A command that is added to a repository with 65 named slots and a free place, under a name that
-- no slot before that place has, is found by `cmd_get_str`, with its function, format and number of
-- parameters; only the slot at that place changes, and the repository stays valid.
pub add_get :
    (name function fparams : Text) (nparam : ℕ) (r : Repo)
    → IsValid r
    → r.cmd_index < max_entries
    → ((j : ℕ) → j < r.cmd_index → (get_or r.cmd_list j zero_entry).name ≢ some name)
    → (r' : Repo) × (cmd_add name function fparams nparam r ≡ some (r.cmd_index + 1, r'))
      × IsValid r'
      × (r'.cmd_list ≡ set r.cmd_list r.cmd_index (new_entry name function fparams nparam))
      × (cmd_get_str name r'
          ≡ some (some (cmd_of r.cmd_index (new_entry name function fparams nparam))))
unfolding cmd_add bind
add_get name function fparams nparam r (size, all) room fresh =
    let prev = get_or r.cmd_list (r.cmd_index - 1) zero_entry in
    let new = new_entry name function fparams nparam in
    let (flag, known) =
      still_sorted-some r prev name
        (All-get_or r.cmd_list (r.cmd_index - 1) (omega (arith, size)) all) in
    let r' : Repo = record {
      cmd_list = set r.cmd_list r.cmd_index new;
      cmd_index = r.cmd_index + 1;
      cmd_is_sorted = flag;
    } in
    let valid : IsValid r' = (
      length-set r.cmd_list r.cmd_index new ∙ size,
      All-set r.cmd_list r.cmd_index new all (name, refl),
    ) in
    let at = stored r.cmd_list r.cmd_index new (omega (arith, size)) in
    let here = at.0 in
    (
      r',
      rw (lt→ltb r.cmd_index max_entries room, known) refl,
      valid,
      refl,
      get_str_first name r' r.cmd_index valid room (ap (λ e. e.name) here)
            (λ j l q. fresh j l (ap (λ e. e.name) (sym (at.1 j (λ e. omega arith))) ∙ q))
          ∙ ap (λ e. some (some (cmd_of r.cmd_index e))) here,
    )
