-- ===== src/Startup/Tests.antt =====
-- The theorem on the deployment with a repository that knows its commands.
use balloon_suchai_flight_so.Prelude.{List, [], ◌∷◌, Option, true, replicate}
use balloon_suchai_flight_so.Prelude.Text.{Text, codes}
use balloon_suchai_flight_so.Commands.{Repo, new_entry}
use balloon_suchai_flight_so.Commands.Idle.{null_command}
use balloon_suchai_flight_so.Startup.{Arg, number, string}

-- The commands of src/system/cmdOBC.c and src/system/cmdCOM.c that the deployment uses, with null
-- commands behind them.
abbrev ready : Repo
ready = record {
  cmd_list =
      new_entry (codes "istage_pwr") (codes "gssb_pwr") (codes "%d %d") 2
      ∷ new_entry (codes "istage_update_status") (codes "gssb_update_status") [] 0
      ∷ new_entry (codes "istage_antenna_release") (codes "gssb_antenna_release")
          (codes "%d %d %d %d") 4
      ∷ new_entry (codes "com_set_config") (codes "com_set_config") (codes "%s %s") 2
      ∷ new_entry (codes "com_get_config") (codes "com_get_config") (codes "%s") 1
      ∷ replicate 60 null_command;
  cmd_index = 5;
  cmd_is_sorted = true;
}

-- A `vsprintf` that prints the first argument: a number as one byte, and of a string its first.
abbrev prints_first : Option Text → List Arg → Text
prints_first fmt [] = 45 ∷ []
prints_first fmt (number n ∷ args) = n ∷ []
prints_first fmt (string [] ∷ args) = 45 ∷ []
prints_first fmt (string (c ∷ s) ∷ args) = c ∷ []
