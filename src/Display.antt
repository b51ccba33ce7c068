-- ===== src/Display.antt =====
-- src/display.rs: the display environment, and the monitor that restarts Xvfb.
-- What the operating system answers (environment variables, whether Xvfb starts, lock files, which
-- processes live) is an argument.
pub mod Backoff
pub mod Restart
mod Examples
use tassh.Protocol.{DisplayEnvironment, wayland, x11, xvfb, headless}
use tassh.Strings.{is_empty, trim}
use tassh.Prelude.{
  ℕ, Text, Option, Bool, List, Result, if◌then◌else◌, some, true, ◌∷◌, none, err, ok, [], is_some,
  false, ◌+◌, ◌||◌, leb, ◌^◌,
}

-- The error messages of `detect_and_init`.
pub data DisplayError : Type 0 where
  spawn_failed publish_failed : DisplayError

pub record DisplayManager : Type 0 where
  pub env : DisplayEnvironment
  pub display_str : Text
  -- a child process, with the monitor task beside it
  pub xvfb_child : Option ℕ

-- What `spawn_xvfb` returns: the child and the number that it wrote.
pub record Spawned : Type 0 where
  pub child : ℕ
  pub display_str : Text

abbrev pub non_empty : Option Text → Option Text
non_empty none = none
non_empty (some s) = if is_empty s then none else some s

-- The headless path. `publish` is whether ~/.tassh/display could be written.
init_xvfb : Option Spawned → Bool → Result DisplayError DisplayManager
init_xvfb none publish = err spawn_failed
init_xvfb (some s) false = err publish_failed
init_xvfb (some s) true =
    ok (record { env = xvfb; display_str = s.display_str; xvfb_child = some s.child })

init_x11 : Option Text → Option Spawned → Bool → Result DisplayError DisplayManager
unfolding init_xvfb
init_x11 none spawned publish = init_xvfb spawned publish
init_x11 (some d) spawned publish = ok (record { env = x11; display_str = d; xvfb_child = none })

init_wayland :
    Option Text → Option Text → Option Spawned → Bool → Result DisplayError DisplayManager
unfolding init_x11
init_wayland none display spawned publish = init_x11 (non_empty display) spawned publish
init_wayland (some wd) display spawned publish =
    ok (record { env = wayland; display_str = wd; xvfb_child = none })

-- `wayland_display` and `display` are the environment variables.
unfoldable pub detect_and_init :
    Bool → Option Text → Option Text → Option Spawned → Bool → Result DisplayError DisplayManager
unfolding init_wayland
detect_and_init true wayland_display display spawned publish = init_xvfb spawned publish
detect_and_init false wayland_display display spawned publish =
    init_wayland (non_empty wayland_display) display spawned publish

-- One round of the loop of `monitor_xvfb`: how the wait for the child ended, and whether the new
-- Xvfb started.
pub data Wait : Type 0 where
  exited wait_error taken : Wait

pub record Round : Type 0 where
  pub wait : Wait
  pub respawned : Bool

pub data Ending : Type 0 where
  -- the rounds that are given are over, and the loop goes on
  running : Ending
  -- the loop was left, or the process was ended
  stopped gave_up : Ending

abbrev pub max_attempts : ℕ
max_attempts = 5

abbrev pub after_exit : ℕ → Bool → ℕ
after_exit attempts true = 0
after_exit attempts false = attempts

-- One round, with what the rounds behind it give.
monitor_round : ℕ → Wait → List ℕ × Ending → List ℕ × Ending
monitor_round n exited (sleeps, ending) =
    if leb max_attempts n then ([], gave_up) else (2 ^ n ∷ sleeps, ending)
monitor_round n _ rest = ([], stopped)

-- The seconds slept before each restart, and how the loop ended.
unfoldable pub monitor_xvfb : ℕ → List Round → List ℕ × Ending
unfolding monitor_round
monitor_xvfb attempts [] = ([], running)
monitor_xvfb attempts (r ∷ rounds) =
    let n = attempts + 1 in monitor_round n r.wait (monitor_xvfb (after_exit n r.respawned) rounds)

-- The watcher's display in `run_daemon` of src/daemon.rs: that of the desktop session if there is
-- one, and else the daemon's own.
unfoldable pub watcher_env : Option Text → Option Text → DisplayManager → Option Text × Option Text
watcher_env display wayland_display manager =
    let d = non_empty display in
    let w = non_empty wayland_display in
    if is_some d || is_some w then (d, w) else elim manager.env [
      | wayland ↦ (none, some manager.display_str)
      | x11 ↦ (some manager.display_str, none)
      | xvfb ↦ (some manager.display_str, none)
      | headless ↦ (none, none)
    ]
