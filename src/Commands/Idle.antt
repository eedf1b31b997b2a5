-- ===== src/Commands/Idle.antt =====
-- A command repository of src/system/repoCommand.c whose slots all hold the null command, for tests.
use balloon_suchai_flight_so.Prelude.{
  ℕ, zero, suc, refl, [], true, replicate, All, ◌≡◌, some, arith,
}
use balloon_suchai_flight_so.Prelude.Text.{codes}
use balloon_suchai_flight_so.Commands.{CmdEntry, Repo, new_entry, cmd_of, cmd_get_str}
use balloon_suchai_flight_so.Commands.Lookup.{IsNamed, IsValid, get_str_first}

abbrev pub null_command : CmdEntry
null_command = new_entry (codes "null") (codes "cmd_null") [] 0

abbrev pub idle : Repo
idle = record { cmd_list = replicate 65 null_command; cmd_index = 0; cmd_is_sorted = true }

All-null : (n : ℕ) → All IsNamed (replicate n null_command)
All-null zero = tt
All-null (suc n) = ((codes "null", refl), All-null n)

pub idle-IsValid : IsValid idle
idle-IsValid = (refl, All-null 65)

pub idle_null : cmd_get_str (codes "null") idle ≡ some (some (cmd_of 0 null_command))
idle_null =
    get_str_first (codes "null") idle 0 idle-IsValid (omega arith) refl (λ j l e. elim l [ ])
