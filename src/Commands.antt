-- ===== src/Commands.antt =====
-- The command repository of src/system/repoCommand.c: `cmd_list`, an array of 65 `cmd_list_t`, with
-- `cmd_index` and `cmd_is_sorted`.
-- A pointer is an option, `none` for NULL; a command function is the text of its C name. An
-- operation gives `none` where the code faults: it hands `strcmp` the NULL name of a slot that was
-- never written, or reads outside the array. The mutex `repo_cmd_sem` is given back on every path,
-- so it is left out, and so are the log lines.
pub mod Params
pub mod Boot
pub mod Lookup
pub mod Fill
pub mod Parse
pub mod Sorted
pub mod Idle
mod Tests
use mathlib.Core.Option.{bind}
use balloon_suchai_flight_so.Prelude.{
  ℕ, zero, suc, ◌+◌, ◌-◌, ◌*◌, Bool, true, false, not, ◌&&◌, List, [], ◌∷◌, Option, none, some, ltb,
  if◌then◌else◌, length, get_or, set, replicate,
}
use balloon_suchai_flight_so.Prelude.Words.{slt, minus_one}
use balloon_suchai_flight_so.Prelude.Text.{Text, codes, strcmp_lt, strcmp_eq}
use balloon_suchai_flight_so.Sorting.{quicksort_by_name}

-- SCH_CMD_MAX_ENTRIES
abbrev pub max_entries : ℕ
max_entries = 65

-- `cmd_list_t`
pub record CmdEntry : Type 0 where
  pub nparams : ℕ
  pub fmt : Option Text
  pub name : Option Text
  pub function : Option Text

-- `cmd_t`; `params` is the buffer that `malloc` gave, byte by byte.
pub record Cmd : Type 0 where
  pub id : ℕ
  pub nparams : ℕ
  pub fmt : Option Text
  pub params : Option (List ℕ)
  pub function : Option Text

pub record Repo : Type 0 where
  pub cmd_list : List CmdEntry
  pub cmd_index : ℕ
  pub cmd_is_sorted : Bool

-- A slot of the array as the program's start zeroes it.
abbrev pub zero_entry : CmdEntry
zero_entry = record { nparams = 0; fmt = none; name = none; function = none }

abbrev pub start_repo : Repo
start_repo = record {
  cmd_list = replicate max_entries zero_entry;
  cmd_index = 0;
  cmd_is_sorted = true;
}

abbrev pub new_entry : Text → Text → Text → ℕ → CmdEntry
new_entry name function fparams nparam = record {
  nparams = nparam;
  fmt = some fparams;
  name = some name;
  function = some function;
}

-- The name that `strcmp` reads; a NULL name stands as an empty one here, and the operations below
-- fault before they compare one.
unfoldable pub name_of : CmdEntry → Text
name_of e = elim e.name [ none ↦ [] | some n ↦ n ]

-- `strcmp(a.name, b.name) < 0`
unfoldable pub name_lt : CmdEntry → CmdEntry → Bool
name_lt a b = strcmp_lt (name_of a) (name_of b)

-- The flag after a new entry is stored behind `prev`: `none` where `prev` has no name.
unfoldable pub still_sorted : Repo → CmdEntry → Text → Option Bool
still_sorted r prev name =
    if not (strcmp_eq name (codes "null")) && r.cmd_is_sorted && ltb 1 r.cmd_index
    then elim prev.name [
      | none ↦ none
      | some p ↦ some (if strcmp_lt name p then false else r.cmd_is_sorted)
    ]
    else some r.cmd_is_sorted

unfoldable pub cmd_add : Text → Text → Text → ℕ → Repo → Option (ℕ × Repo)
cmd_add name function fparams nparam r =
    if ltb r.cmd_index max_entries
    then bind (still_sorted r (get_or r.cmd_list (r.cmd_index - 1) zero_entry) name) (λ flag. some (
      r.cmd_index + 1,
      record {
        cmd_list = set r.cmd_list r.cmd_index (new_entry name function fparams nparam);
        cmd_index = r.cmd_index + 1;
        cmd_is_sorted = flag;
      },
    ))
    else some (minus_one, r)

-- A new command of a slot's contents.
abbrev pub cmd_of : ℕ → CmdEntry → Cmd
cmd_of idx found = record {
  id = idx;
  nparams = found.nparams;
  fmt = found.fmt;
  params = none;
  function = found.function;
}

-- The outer option is the fault of a read outside the array, at a negative index.
unfoldable pub cmd_get_idx : ℕ → Repo → Option (Option Cmd)
cmd_get_idx idx r =
    if slt idx max_entries
    then (if ltb idx (length r.cmd_list)
        then some (some (cmd_of idx (get_or r.cmd_list idx zero_entry)))
        else none)
    else some none

-- The loop over the array, from place `i`: where the first slot of that name is, if any.
unfoldable pub find_name : Text → ℕ → List CmdEntry → Option (Option ℕ)
find_name name i [] = some none
find_name name i (e ∷ es) =
    let rest = find_name name (i + 1) es in
    elim e.name [ none ↦ none | some n ↦ if strcmp_eq name n then some (some i) else rest ]

unfoldable pub cmd_get_str : Text → Repo → Option (Option Cmd)
cmd_get_str name r =
    bind (find_name name 0 r.cmd_list)
      (λ found. elim found [ none ↦ some none | some i ↦ cmd_get_idx i r ])

unfoldable pub cmd_get_name : ℕ → Repo → Option (Option Text)
cmd_get_name idx r =
    if slt idx max_entries
    then (if ltb idx (length r.cmd_list)
        then elim ((get_or r.cmd_list idx zero_entry).name) [ none ↦ none | some n ↦ some (some n) ]
        else none)
    else some none

-- The format of the first command of that name. `some none` stands for the bytes of `malloc` that
-- the code returns as they are where there is no such command; 30 bytes hold the format and its
-- terminator, and a longer format is written past them.
unfoldable pub cmd_get_fmt : Text → Repo → Option (Option Text)
cmd_get_fmt name r = bind (find_name name 0 r.cmd_list) (λ found. elim found [
  | none ↦ some none
  | some i ↦
      bind ((get_or r.cmd_list i zero_entry).fmt)
        (λ f. if ltb (length f) 30 then some (some f) else none)
])

-- Whether every name that the sort compares is there.
unfoldable pub all_named : ℕ → List CmdEntry → Bool
all_named zero es = true
all_named (suc n) [] = false
all_named (suc n) (e ∷ es) =
    let rest = all_named n es in elim e.name [ none ↦ false | some t ↦ rest ]

-- The depth of the recursion is at most twice the number of commands.
unfoldable pub sort_cmd_list : Repo → Option Repo
sort_cmd_list r =
    if r.cmd_is_sorted
    then some r
    else (if ltb 1 r.cmd_index
        then (if all_named r.cmd_index r.cmd_list
            then bind
                (quicksort_by_name name_lt zero_entry (2 * r.cmd_index) r.cmd_list 0
                  (r.cmd_index - 1))
                (λ es. some (record r { cmd_list = es; cmd_is_sorted = true }))
            else none)
        else some (record r { cmd_is_sorted = true }))

-- What the loop of `cmd_print_all` prints from place `i`: the index, the name and the format.
unfoldable pub print_from : ℕ → ℕ → List CmdEntry → Option (List (ℕ × Text × Text))
print_from i zero es = some []
print_from i (suc n) [] = none
print_from i (suc n) (e ∷ es) =
    bind e.name
      (λ name. bind e.fmt (λ f. bind (print_from (i + 1) n es) (λ l. some ((i, name, f) ∷ l))))

unfoldable pub cmd_print_all : Repo → Option (List (ℕ × Text × Text) × Repo)
cmd_print_all r =
    bind (sort_cmd_list r) (λ r'. bind (print_from 0 r'.cmd_index r'.cmd_list) (λ l. some (l, r')))

-- The do-while loop that fills the array with "null". On fuel, the number of turns; `none` where it
-- runs out.
unfoldable pub fill_null : ℕ → Repo → Option Repo
fill_null zero r = none
fill_null (suc fuel) r =
    bind (cmd_add (codes "null") (codes "cmd_null") [] 0 r)
      (λ (n_cmd, r'). if slt n_cmd max_entries then fill_null fuel r' else some r')

-- A call of `cmd_add` with constant arguments: name, function, format, number of parameters.
abbrev pub Registration : Type 0
Registration = Text × Text × Text × ℕ

unfoldable pub register_all : List Registration → Repo → Option Repo
register_all [] r = some r
register_all ((name, function, fparams, nparam) ∷ regs) r =
    bind (cmd_add name function fparams nparam r) (λ (n, r'). register_all regs r')

-- `cmd_repo_init` with the calls of `cmd_add` that its `cmd_..._init` functions make.
unfoldable pub cmd_repo_init : ℕ → List Registration → Repo → Option Repo
cmd_repo_init fuel regs r =
    bind (register_all regs (record r { cmd_index = 0 }))
      (λ r_1. bind (fill_null fuel r_1) (λ r_2. some (record r_2 { cmd_index = r_1.cmd_index })))
