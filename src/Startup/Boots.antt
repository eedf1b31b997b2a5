-- ===== src/Startup/Boots.antt =====
-- When src/system/taskInit.c runs the deployment.
use balloon_suchai_flight_so.Prelude.{
  ℕ, ◌+◌, ◌<◌, ◌≡◌, Bool, List, [], ◌∷◌, ◌++◌, Option, some, length, if◌then◌else◌,
}
use balloon_suchai_flight_so.Prelude.Text.{Text, codes}
use balloon_suchai_flight_so.Commands.{Cmd, Repo, cmd_get_str}
use balloon_suchai_flight_so.Commands.Params.{strncpy, max_str_params}
use balloon_suchai_flight_so.Startup.{Arg, Params, number, string}

-- A command with a parameter string.
abbrev with_params : Cmd → Text → Cmd
with_params cmd s = record cmd { params = some (strncpy s (length s + 1)) }

-- The commands of the deployment as a repository holds them.
pub record Known (r : Repo) : Type 0 where
  pub pwr : Cmd
  pub update_status : Cmd
  pub antenna_release : Cmd
  pub set_config : Cmd
  pub get_config : Cmd
  pub pwr_known : cmd_get_str (codes "istage_pwr") r ≡ some (some pwr)
  pub update_status_known : cmd_get_str (codes "istage_update_status") r ≡ some (some update_status)
  pub antenna_release_known :
      cmd_get_str (codes "istage_antenna_release") r ≡ some (some antenna_release)
  pub set_config_known : cmd_get_str (codes "com_set_config") r ≡ some (some set_config)
  pub get_config_known : cmd_get_str (codes "com_get_config") r ≡ some (some get_config)

module _ (vsprintf : Option Text → List Arg → Text)
    (prints : (fmt : Option Text) (args : List Arg)
      → (0 < length (vsprintf fmt args)) × (length (vsprintf fmt args) < max_str_params))
    (r : Repo) (known : Known r) where
  -- The release of an antenna: on for 2 s, off for 1 s, 5 times.
  abbrev pub released : ℕ → Cmd
  released istage =
      with_params known.antenna_release
        (vsprintf known.antenna_release.fmt (number istage ∷ number 2 ∷ number 1 ∷ number 5 ∷ []))

  -- A value of the transceiver, read back in a debug build.
  abbrev pub configured : Bool → Text → Text → List Cmd
  configured debug name value =
      with_params known.set_config (vsprintf known.set_config.fmt (string name ∷ string value ∷ []))
      ∷ (if debug then with_params known.get_config name ∷ [] else [])

  -- The commands of the deployment, in their order.
  abbrev pub deployment : Bool → List Cmd
  deployment debug =
      with_params known.pwr (codes "1 0")
      ∷ known.update_status
      ∷ released 16
      ∷ released 17
      ∷ released 18
      ∷ released 19
      ∷ known.update_status
      ∷ (configured debug (codes "tx_inhibit") (codes "10")
          ++ (configured debug (codes "tx_pwr") (codes "0")
              ++ (configured debug (codes "bcn_interval") (codes "60")
                  ++ (configured debug (codes "freq") (codes "437250000")
                      ++ configured debug (codes "baud") (codes "4800")))))
