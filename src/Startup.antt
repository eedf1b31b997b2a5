-- ===== src/Startup.antt =====
-- What src/system/taskInit.c sends at the start of the program: the choice by the first boot, and
-- `init_routines`. The set-up of CSP and the creation of the tasks are calls of CSP and of the
-- operating system and are left out; so are log lines. `vsprintf` is a parameter.
mod Boots
mod Tests
use mathlib.Core.Option.{bind}
use balloon_suchai_flight_so.Prelude.{
  ℕ, Bool, List, [], ◌∷◌, ◌++◌, Option, none, some, if◌then◌else◌,
}
use balloon_suchai_flight_so.Prelude.Words.{slt}
use balloon_suchai_flight_so.Prelude.Text.{Text, codes}
use balloon_suchai_flight_so.Commands.{Cmd, Repo, cmd_get_str}
use balloon_suchai_flight_so.Commands.Params.{cmd_add_params_str, cmd_add_params_var}
use balloon_suchai_flight_so.Status.{Buff, dat_get_system_var}
use balloon_suchai_flight_so.Status.Vars.{index}
use balloon_suchai_flight_so.Status.Vars.DatSystem.{dat_dep_deployed}
use balloon_suchai_flight_so.Comms.{send_if}

-- An argument of `cmd_add_params_var`.
pub data Arg : Type 0 where
  number : ℕ → Arg
  string : Text → Arg

-- The parameters that a command is given before it is sent.
pub data Params : Type 0 where
  no_params : Params
  params_str : Text → Params
  params_var : List Arg → Params

-- A lookup, its parameters and `cmd_send`.
abbrev pub Step : Type 0
Step = Text × Params

abbrev pub release : ℕ → Step
release istage = (
  codes "istage_antenna_release",
  params_var (number istage ∷ number 2 ∷ number 1 ∷ number 5 ∷ []),
)

-- `com_set_config` with a name and a value, and with debug logs `com_get_config` of the name.
abbrev pub configure : Bool → Text → Text → List Step
configure debug name value =
    (codes "com_set_config", params_var (string name ∷ string value ∷ []))
    ∷ (if debug then (codes "com_get_config", params_str name) ∷ [] else [])

-- The steps of `init_routines`; the values are those of src/system/include/config.h.
abbrev pub init_steps : Bool → List Step
init_steps debug =
    (codes "istage_pwr", params_str (codes "1 0"))
    ∷ (codes "istage_update_status", no_params)
    ∷ release 16
    ∷ release 17
    ∷ release 18
    ∷ release 19
    ∷ (codes "istage_update_status", no_params)
    ∷ (configure debug (codes "tx_inhibit") (codes "10")
        ++ (configure debug (codes "tx_pwr") (codes "0")
            ++ (configure debug (codes "bcn_interval") (codes "60")
                ++ (configure debug (codes "freq") (codes "437250000")
                    ++ configure debug (codes "baud") (codes "4800")))))

module _ (vsprintf : Option Text → List Arg → Text) (r : Repo) where
  -- `none` is a fault: of `cmd_get_str`, or a write past the buffer of `cmd_add_params_var`.
  unfoldable pub attach : Params → Option Cmd → Option (Option Cmd)
  attach no_params cmd = some cmd
  attach (params_str params) cmd = some (cmd_add_params_str cmd params)
  attach (params_var args) cmd = cmd_add_params_var vsprintf cmd args

  unfoldable pub run_steps : List Step → Option (List Cmd)
  run_steps [] = some []
  run_steps ((name, params) ∷ steps) = bind (cmd_get_str name r) (λ cmd.
      bind (attach params cmd) (λ cmd'. bind (run_steps steps) (λ cmds. some (send_if cmd' cmds))))

  unfoldable pub init_routines : Bool → Option (List Cmd)
  init_routines debug = run_steps (init_steps debug)

  -- `first_boot = dat_get_system_var(dat_dep_deployed) > 0 ? 0 : 1`
  unfoldable pub task_init : Bool → Buff → Option (List Cmd)
  task_init debug b =
      if slt 0 (dat_get_system_var b (index dat_dep_deployed)) then some [] else init_routines debug
