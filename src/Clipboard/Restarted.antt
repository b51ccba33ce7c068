-- ===== src/Clipboard/Restarted.antt =====
-- The display of src/display.rs to which the writer of src/clipboard.rs and the watcher of src/daemon.rs
-- turn after a restart of Xvfb.
use tassh.Locks.{display_file}
use tassh.Protocol.{xvfb}
use tassh.Display.{
  non_empty, Ending, gave_up, max_attempts, after_exit, Spawned, detect_and_init, watcher_env,
}
use tassh.Display.Restart.{
  Displays, wire, start_displays, run_monitor, Server, Respawn, init_server, respawn,
  monitor_server,
}
use tassh.Clipboard.{ClipboardWriter, WriteError, Holder, holder_command, xclip}
use tassh.Prelude.{
  Result, ◌||◌, ap, sym, ℕ, Text, Option, Bool, List, All, some, none, true, [], ◌∷◌, ok,
  if◌then◌else◌, is_some, leb, ◌+◌, ◌≡◌, ◌↔◌, arith, Option-cases, inl, inr, false,
}

-- What is published is the display of the Xvfb that runs, if one runs, and so is $DISPLAY.
abbrev Follows : Server → Type 0
Follows server =
    (d : Text)
    → server.shown ≡ some d
    → (server.published ≡ some (display_file d)) × (server.variable ≡ some d)

Follows-if :
    (b : Bool) (x y : Server × Ending) → Follows x.0 → Follows y.0 → Follows (if b then x else y).0
Follows-if true x y fx fy = fx
Follows-if false x y fx fy = fy

respawn-Follows :
    (r : Respawn) (server : Server) → r.publish ≡ true → Follows server → Follows (respawn r server)
unfolding respawn
respawn-Follows r server p f d e = elim (Option-cases r.display) [
  | inl q ↦ absurd (ground (arith, q, e))
  | inr (c, q) ↦ ground (arith, q, e, p)
]

monitor_server-Follows :
    (attempts : ℕ) (rs : List Respawn) (server : Server)
    → All (λ r. r.publish ≡ true) rs
    → Follows server
    → Follows (monitor_server attempts rs server).0
unfolding monitor_server
monitor_server-Follows attempts [] server h f = f
monitor_server-Follows attempts (r ∷ rs) server (p, h) f =
    let n = attempts + 1 in
    Follows-if (leb max_attempts n) (record server { shown = none }, gave_up)
      (monitor_server (after_exit n (is_some r.display)) rs (respawn r server))
      (λ d e. absurd (cc e))
      (monitor_server-Follows (after_exit n (is_some r.display)) rs (respawn r server) h
        (respawn-Follows r server p f))

-- The writer of a connection that is accepted.
unfoldable pub inbound_writer : Displays → ClipboardWriter
inbound_writer ds = record {
  current_child = none;
  display = ds.wiring.writer_env;
  display_str = some ds.wiring.writer_display;
}

-- The process that it starts for an image.
unfoldable pub writes_to : Displays → Result WriteError Holder
unfolding inbound_writer
writes_to ds =
    let w = inbound_writer ds in holder_command w.display w.display_str ds.current.variable

started_displays :
    (display wayland_display : Option Text) (s : Spawned) (before : Server) (ds : Displays)
    → start_displays display wayland_display (some s) true before ≡ some ds
    → record {
      current = init_server (some s) true before;
      wiring =
          wire display wayland_display
            (record { env = xvfb; display_str = s.display_str; xvfb_child = some s.child });
    }
      ≡ ds
unfolding start_displays detect_and_init
started_displays display wayland_display s before ds e = ground (arith, e)

-- A daemon that brought up and published the display of its Xvfb, and whose monitor restarted it any
-- number of times, where each display of a restart could be published: the published display and $DISPLAY
-- are that of the Xvfb that runs, but the writer of each connection, and the watcher on a machine without a
-- desktop, stay with the display of the first one. So what the daemon writes gets to the published
-- display exactly if the last restart came to the first display.
pub restart_leaves_writer :
    (display wayland_display : Option Text) (s : Spawned) (before : Server) (ds : Displays)
    (rs : List Respawn) (d : Text)
    → start_displays display wayland_display (some s) true before ≡ some ds
    → All (λ r. r.publish ≡ true) rs
    → (run_monitor rs ds).current.shown ≡ some d
    → let now = run_monitor rs ds in
      (now.current.published ≡ some (display_file d))
      × (now.current.variable ≡ some d)
      × (now.wiring.watcher ≡ (
          if is_some (non_empty display) || is_some (non_empty wayland_display)
          then (non_empty display, non_empty wayland_display)
          else (some s.display_str, none)))
      × ((writes_to now ≡ ok (xclip d)) ↔ (d ≡ s.display_str))
unfolding init_server run_monitor wire watcher_env writes_to inbound_writer holder_command
restart_leaves_writer display wayland_display s before ds rs d e h shown =
    let same = sym (started_displays display wayland_display s before ds e) in
    let server : ds.current ≡ init_server (some s) true before = ap Displays.current same in
    let wiring = ap Displays.wiring same in
    let (published, variable) =
      monitor_server-Follows 0 rs ds.current h (λ c q. ground (arith, q, server)) d shown in
    (
      published,
      variable,
      ground (arith, wiring),
      (λ q. ground (arith, q, wiring), λ q. ground (arith, q, wiring)),
    )
