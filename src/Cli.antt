-- ===== src/Cli.antt =====
-- src/cli.rs: the commands and their arguments, and what `main` of src/main.rs makes of them. The parser
-- belongs to clap.
use tassh.Ipc.{Json, send_notify, send_inject, status_request}
use tassh.Prelude.{ℕ, Text, List, Bool, Option, some, none, map_option, if◌then◌else◌}

pub record DaemonArgs : Type 0 where
  pub port : ℕ

pub record NotifyArgs : Type 0 where
  pub host : Text
  pub port : ℕ
  pub ssh_pid : ℕ

pub record InjectArgs : Type 0 where
  pub png_file : Text

pub record SetupDaemonArgs : Type 0 where
  pub port : ℕ
  pub yes' : Bool

pub data SetupTarget : Type 0 where
  daemon_target : SetupDaemonArgs → SetupTarget

pub data Commands : Type 0 where
  daemon : DaemonArgs → Commands
  notify : NotifyArgs → Commands
  status : Commands
  inject : InjectArgs → Commands
  setup : SetupTarget → Commands

-- What a command writes to the socket of the daemon. `read` is what the file of `inject` holds, if it
-- can be read.
unfoldable pub request : Json → (Text → Option (List ℕ)) → Commands → Option Text
request J read (notify args) = some (send_notify J args.host args.port args.ssh_pid)
request J read status = some (status_request J)
request J read (inject args) = map_option (send_inject J) (read args.png_file)
request J read _ = none

-- The exit code, with whether the command failed. A failed notification does not break the SSH
-- connection.
unfoldable pub main : Commands → Bool → ℕ
main (notify args) failed = 0
main _ failed = if failed then 1 else 0
