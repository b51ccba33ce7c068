-- ===== src/Setup/Service.antt =====
-- src/setup.rs: `run_setup_daemon`, with the systemd unit. What systemctl, loginctl and the files do is
-- an argument; the text on the terminal is left out.
use tassh.Setup.{
  Access, Answer, SetupError, Written, complete, cut, written_text, setup_ssh_config,
  setup_shell_snippets,
}
use tassh.Paths.{binary_path}
use tassh.Strings.Numbers.{to_string}
use tassh.Prelude.{
  ℕ, Text, List, Option, Bool, Result, ok, err, some, none, [], ◌∷◌, ◌++◌, codes, not,
  if◌then◌else◌, ◌+◌,
}

pub data ServiceCommand : Type 0 where
  daemon_reload enable start enable_linger : ServiceCommand

-- The unit's file, the ssh configuration, the shell profiles, and the commands that systemctl and
-- loginctl were given, with whether they were successful.
pub record Machine : Type 0 where
  pub unit_file : Option Text
  pub config : Option Text
  pub profiles : List (Option Text)
  pub commands : List (ServiceCommand × Bool)

-- What the system does, and the user answers, in one run.
pub record Outcomes : Type 0 where
  pub binary : Bool
  pub directory : Bool
  pub unit_written : Option Written
  pub reloads : Bool
  pub enables : Bool
  pub starts : Bool
  pub lingers : Bool
  pub config_answer : Answer
  pub config_access : Access
  pub profile_answer : Answer
  pub profile_access : ℕ → Access

pub data RunError : Type 0 where
  no_binary no_directory unit_failed systemctl_failed : RunError
  config_failed : SetupError → RunError

-- `home` is $HOME, if it is set to a text.
unfoldable pub tassh_daemon_unit : Option Text → ℕ → Text
tassh_daemon_unit home port =
    codes
      "[Unit]\nDescription=tassh daemon (SSH-triggered clipboard relay)\nAfter=network.target\n\n[Service]\nExecStart="
    ++ binary_path home
    ++ codes " daemon --port "
    ++ to_string port
    ++ codes
        "\nRestart=always\nRestartSec=5\nTimeoutStopSec=3\n\n[Install]\nWantedBy=default.target\n"

-- Each profile with what the system does with it.
unfoldable pub with_access : (ℕ → Access) → ℕ → List (Option Text) → List (Access × Option Text)
with_access access i [] = []
with_access access i (file ∷ files) = (access i, file) ∷ with_access access (i + 1) files

-- The hooks, behind the service.
unfoldable pub setup_hooks : Bool → Outcomes → Machine → Machine × Result RunError (Unit {0})
unfolding with_access
setup_hooks assume_yes o m =
    let (config, result) = setup_ssh_config assume_yes o.config_answer o.config_access m.config in
    elim result [
      | err e ↦ (record m { config = config }, err (config_failed e))
      | ok _ ↦ (
        record m {
          config = config;
          profiles =
              setup_shell_snippets assume_yes o.profile_answer
                (with_access o.profile_access 0 m.profiles);
        },
        ok tt,
      )
    ]

-- The three commands of systemctl, up to the first that fails, and that of loginctl, whose failure is a
-- warning.
unfoldable pub start_service : Bool → Outcomes → Machine → Machine × Result RunError (Unit {0})
unfolding setup_hooks
start_service assume_yes o m =
    let reload = (daemon_reload, o.reloads) ∷ [] in
    let both = reload ++ (enable, o.enables) ∷ [] in
    let all = both ++ (start, o.starts) ∷ [] in
    let every = all ++ (enable_linger, o.lingers) ∷ [] in
    if not o.reloads
    then (record m { commands = m.commands ++ reload }, err systemctl_failed)
    else if not o.enables
    then (record m { commands = m.commands ++ both }, err systemctl_failed)
    else if not o.starts
    then (record m { commands = m.commands ++ all }, err systemctl_failed)
    else setup_hooks assume_yes o (record m { commands = m.commands ++ every })

-- The write of the unit's file, `none` if it could not be opened.
abbrev unit_and_service :
    Option Written → Text → Bool → Outcomes → Machine → Machine × Result RunError (Unit {0})
unit_and_service none text assume_yes o m = (m, err unit_failed)
unit_and_service (some (cut n)) text assume_yes o m =
    (record m { unit_file = some (written_text (cut n) text) }, err unit_failed)
unit_and_service (some complete) text assume_yes o m =
    start_service assume_yes o (record m { unit_file = some text })

unfoldable pub run_setup_daemon :
    Option Text → ℕ → Bool → Outcomes → Machine → Machine × Result RunError (Unit {0})
unfolding start_service
run_setup_daemon home port assume_yes o m =
    if not o.binary
    then (m, err no_binary)
    else if not o.directory
    then (m, err no_directory)
    else unit_and_service o.unit_written (tassh_daemon_unit home port) assume_yes o m
