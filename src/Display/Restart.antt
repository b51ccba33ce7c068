-- ===== src/Display/Restart.antt =====
-- src/display.rs: what the start of Xvfb and its restarts by `monitor_xvfb` leave behind: the server that
-- runs, $DISPLAY of the daemon, and ~/.tassh/display.
use tassh.Locks.{display_file}
use tassh.Protocol.{DisplayEnvironment}
use tassh.Display.{
  DisplayManager, watcher_env, detect_and_init, Spawned, Ending, running, gave_up, max_attempts,
  after_exit, Round, exited, monitor_xvfb,
}
use tassh.Prelude.{
  ok, err, ℕ, Text, Option, Bool, List, some, none, [], ◌∷◌, if◌then◌else◌, is_some, leb, ◌+◌, ◌≡◌,
  arith, refl, true,
}

pub record Server : Type 0 where
  -- the display of the Xvfb that runs
  pub shown : Option Text
  -- $DISPLAY
  pub variable : Option Text
  -- ~/.tassh/display
  pub published : Option Text

-- The headless path of `detect_and_init`.
unfoldable pub init_server : Option Spawned → Bool → Server → Server
init_server none publish server = server
init_server (some s) publish server = record {
  shown = some s.display_str;
  variable = some s.display_str;
  published = if publish then some (display_file s.display_str) else server.published;
}

-- What a restart comes to: the display of the new Xvfb, if it started, and whether it was published.
pub record Respawn : Type 0 where
  pub display : Option Text
  pub publish : Bool

unfoldable pub respawn : Respawn → Server → Server
respawn r server = elim r.display [
  | none ↦ record server { shown = none }
  | some d ↦ record {
    shown = some d;
    variable = some d;
    published = if r.publish then some (display_file d) else server.published;
  }
]

-- The loop, where Xvfb exits in each round.
unfoldable pub monitor_server : ℕ → List Respawn → Server → Server × Ending
unfolding respawn
monitor_server attempts [] server = (server, running)
monitor_server attempts (r ∷ rs) server =
    let n = attempts + 1 in
    let rest = monitor_server (after_exit n (is_some r.display)) rs (respawn r server) in
    if leb max_attempts n then (record server { shown = none }, gave_up) else rest

-- What `run_daemon` passes on when it starts its tasks: to the TCP server the display of the writers, and
-- to the watcher its two variables.
pub record Wiring : Type 0 where
  pub writer_env : DisplayEnvironment
  pub writer_display : Text
  pub watcher : Option Text × Option Text

unfoldable pub wire : Option Text → Option Text → DisplayManager → Wiring
wire display wayland_display manager = record {
  writer_env = manager.env;
  writer_display = manager.display_str;
  watcher = watcher_env display wayland_display manager;
}

-- The displays of a daemon that serves.
pub record Displays : Type 0 where
  pub current : Server
  pub wiring : Wiring

-- The start of the tasks, `none` if there is no display. The two variables are those of the process.
unfoldable pub start_displays :
    Option Text → Option Text → Option Spawned → Bool → Server → Option Displays
unfolding wire
start_displays display wayland_display spawned publish before =
    elim (detect_and_init true wayland_display display spawned publish) [
      | err e ↦ none
      | ok m ↦ some (record {
        current = init_server spawned publish before;
        wiring = wire display wayland_display m;
      })
    ]

-- The monitor beside the tasks that were started.
unfoldable pub run_monitor : List Respawn → Displays → Displays
run_monitor rs ds = record ds { current = (monitor_server 0 rs ds.current).0 }

abbrev rounds_of : List Respawn → List Round
rounds_of [] = []
rounds_of (r ∷ rs) = record { wait = exited; respawned = is_some r.display } ∷ rounds_of rs

-- The loop ends as it does for the delays.
monitor_server-ends :
    (attempts : ℕ) (rs : List Respawn) (server : Server)
    → (monitor_server attempts rs server).1 ≡ (monitor_xvfb attempts (rounds_of rs)).1
unfolding monitor_server monitor_xvfb
monitor_server-ends attempts [] server = refl
monitor_server-ends attempts (r ∷ rs) server = ground (
  arith,
  monitor_server-ends (after_exit (attempts + 1) (is_some r.display)) rs (respawn r server),
)
