-- ===== src/Instance.antt =====
-- src/daemon.rs: how `run_daemon` starts, from the directory to the bound socket, with
-- `detect_and_init` and `publish_display` of src/display.rs. What the system answers is an argument;
-- a display file that cannot be written is taken to be missing, and $HOME to be set.
use tassh.Display.{DisplayError, DisplayManager, Spawned, detect_and_init}
use tassh.Locks.{display_file}
use tassh.Prelude.{
  Text, Option, Bool, Result, ok, err, some, none, true, false, not, if◌then◌else◌, ◌&&◌,
}
pub mod Life
pub mod Again
pub mod Second
mod Examples

-- ~/.tassh/daemon.sock: not there, left behind by a crash, or answered by a daemon.
pub data Socket : Type 0 where
  missing stale live : Socket

pub record Home : Type 0 where
  -- ~/.tassh/display
  pub published : Option Text
  pub socket : Socket

pub data StartError : Type 0 where
  create_failed already_running bind_failed : StartError
  init_failed : DisplayError → StartError

-- What the system does with one start.
pub record System : Type 0 where
  pub directory : Bool
  pub wayland_display : Option Text
  pub display : Option Text
  pub spawned : Option Spawned
  pub publish : Bool
  -- whether the socket of an earlier process can be removed
  pub removed : Bool
  -- whether the socket can be bound where there is no file
  pub bound : Bool

abbrev is_live : Socket → Bool
is_live live = true
is_live _ = false

-- There is no file at the path.
abbrev is_missing : Socket → Bool
is_missing missing = true
is_missing _ = false

-- `remove_file`, whose error is ignored.
abbrev pub remove_socket : Bool → Home → Home
remove_socket removed h = if removed then record h { socket = missing } else h

-- bind(2) fails with EADDRINUSE where there is a file at the path, also the socket of a process that is gone.
abbrev bind : Bool → DisplayManager → Home → Home × Result StartError DisplayManager
bind bound m h =
    if bound && is_missing h.socket
    then (record h { socket = live }, ok m)
    else (h, err bind_failed)

unfoldable pub bring_up : System → Home → Home × Result StartError DisplayManager
bring_up sys h =
    elim (detect_and_init true sys.wayland_display sys.display sys.spawned sys.publish) [
      | err e ↦ (h, err (init_failed e))
      | ok m ↦ bind sys.bound m (record h { published = some (display_file m.display_str) })
    ]

-- The result is the display, if the daemon comes to serve.
unfoldable pub run_daemon : System → Home → Home × Result StartError DisplayManager
unfolding bring_up
run_daemon sys h =
    if not sys.directory
    then (h, err create_failed)
    else if is_live h.socket
    then (record h { published = none }, err already_running)
    else bring_up sys (remove_socket sys.removed (record h { published = none }))
