-- ===== src/Commands/Tests.antt =====
-- The command repository after the boot on Linux, and its theorems at concrete inputs.
use mathlib.Core.Option.{bind}
use mathlib.Core.List.{Perm}
use balloon_suchai_flight_so.Prelude.{
  ◌≡◌, ◌≢◌, refl, ap, true, false, List, [], ◌∷◌, ◌++◌, Option, none, some, arith, get_or, set,
  replicate, ◌+◌, ℕ, zero, suc, All,
}
use balloon_suchai_flight_so.Prelude.Words.{minus_one, slt}
use balloon_suchai_flight_so.Prelude.Text.{codes, strcmp_eq, strcmp_lt}
use balloon_suchai_flight_so.Sorting.Ordered.{IsSorted}
use balloon_suchai_flight_so.Commands.{
  CmdEntry, Repo, start_repo, zero_entry, new_entry, cmd_of, name_lt, cmd_repo_init, cmd_get_str,
  cmd_add, register_all, fill_null, still_sorted, sort_cmd_list,
}
use balloon_suchai_flight_so.Commands.Boot.{boot_commands, boot_commands_fp}
use balloon_suchai_flight_so.Commands.Params.{cmd_add_params_str, c_string, params_str_round_trip}
use balloon_suchai_flight_so.Commands.Parse.{cmd_parse_from_str, cmd_parse_from_str_lem}
use balloon_suchai_flight_so.Commands.Lookup.{IsValid, add_get}
use balloon_suchai_flight_so.Commands.Idle.{null_command, idle, idle-IsValid}
use balloon_suchai_flight_so.Commands.Fill.{nulls_from, fill_null_ends, fill_null_hangs}
use balloon_suchai_flight_so.Commands.Sorted.{sort_cmd_list_sorts}

abbrev or_start : Option Repo → Repo
or_start none = start_repo
or_start (some r) = r

abbrev booted : Repo
unfolding cmd_repo_init register_all cmd_add fill_null still_sorted
booted = or_start (cmd_repo_init 65 boot_commands start_repo)

-- The boot on Linux registers 61 commands, and not in order.
booted_61 : (booted.cmd_index ≡ 61) × (booted.cmd_is_sorted ≡ false)
unfolding cmd_repo_init register_all cmd_add fill_null still_sorted bind strcmp_eq strcmp_lt
booted_61 = (refl, refl)

abbrev full : Repo
unfolding register_all cmd_add still_sorted
full = or_start (register_all boot_commands_fp start_repo)

-- With the flight plan's five commands the array is full before it is filled, the last one does not
-- go in, and the fill does not end.
full_65 : full.cmd_index ≡ 65
unfolding register_all cmd_add still_sorted bind strcmp_eq strcmp_lt
full_65 = refl

fill_null_hangs_example :
    (cmd_add (codes "null") (codes "cmd_null") [] 0 full ≡ some (minus_one, full))
    × (slt minus_one 65 ≡ true)
    × (fill_null (1000 + 1) full ≡ fill_null 1 full)
fill_null_hangs_example = fill_null_hangs full 1000 1 (rw full_65 (omega arith))

fill_null_ends_example :
    fill_null 65 start_repo
    ≡ some
        (record start_repo { cmd_list = nulls_from (replicate 65 zero_entry) 0 65; cmd_index = 65 })
fill_null_ends_example = fill_null_ends start_repo 65 (omega arith) (omega arith)

not_help : (n : ℕ) → All (λ e. e.name ≢ some (codes "help")) (replicate n null_command)
not_help zero = tt
not_help (suc n) = (
  λ e. omega (arith, ap {B = ℕ} (λ o. elim o [ none ↦ 0 | some t ↦ get_or t 0 0 ]) e),
  not_help n,
)

add_get_example :
    (r' : Repo) × (cmd_add (codes "help") (codes "con_help") [] 0 idle ≡ some (1, r'))
    × IsValid r'
    × (r'.cmd_list ≡ set idle.cmd_list 0 (new_entry (codes "help") (codes "con_help") [] 0))
    × (cmd_get_str (codes "help") r'
        ≡ some (some (cmd_of 0 (new_entry (codes "help") (codes "con_help") [] 0))))
add_get_example =
    add_get (codes "help") (codes "con_help") [] 0 idle idle-IsValid (omega arith)
      (λ j l e. elim l [ ])

abbrev unsorted : Repo
unsorted = record {
  cmd_list =
      new_entry (codes "test") (codes "con_debug_msg") (codes "%s") 1
      ∷ new_entry (codes "help") (codes "con_help") [] 0
      ∷ zero_entry
      ∷ [];
  cmd_index = 2;
  cmd_is_sorted = false;
}

abbrev two_commands : List CmdEntry
two_commands =
    new_entry (codes "test") (codes "con_debug_msg") (codes "%s") 1
    ∷ new_entry (codes "help") (codes "con_help") [] 0
    ∷ []

sort_cmd_list_sorts_example :
    (out : List CmdEntry) × (sort_cmd_list unsorted
      ≡ some (record unsorted { cmd_list = out ++ (zero_entry ∷ []); cmd_is_sorted = true }))
    × Perm out two_commands
    × IsSorted name_lt out
sort_cmd_list_sorts_example =
    sort_cmd_list_sorts unsorted two_commands (zero_entry ∷ []) refl refl refl
      ((codes "test", refl), ((codes "help", refl), tt))

params_str_round_trip_example :
    (buffer : List ℕ) × (cmd_add_params_str (some (cmd_of 0 null_command)) (49 ∷ 48 ∷ [])
      ≡ some (record (cmd_of 0 null_command) { params = some buffer }))
    × (c_string buffer ≡ some (49 ∷ 48 ∷ []))
params_str_round_trip_example =
    params_str_round_trip (cmd_of 0 null_command) (49 ∷ 48 ∷ [])
      ((λ e. omega arith), ((λ e. omega arith), tt)) (omega arith)

cmd_parse_from_str_lem_example :
    (cmd_parse_from_str (codes "help 10") idle
      ≡ bind (cmd_get_str (codes "help") idle) (λ cmd. some (cmd_add_params_str cmd (codes "10"))))
    × (cmd_parse_from_str (codes " ") idle ≡ some none)
cmd_parse_from_str_lem_example =
    cmd_parse_from_str_lem 104 (codes "elp") 32 [] (codes "10") idle
      (refl, (refl, (refl, (refl, tt)))) refl tt refl
