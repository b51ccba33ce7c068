-- ===== src/Clipboard/Startup.antt =====
-- The start of the daemon in src/daemon.rs: the display that it chooses for the clipboard of
-- src/clipboard.rs.
use tassh.Protocol.{DisplayEnvironment, wayland, x11, xvfb, headless}
use tassh.Display.{DisplayManager, Spawned, detect_and_init, watcher_env, DisplayError}
use tassh.Locks.{display_of}
use tassh.Clipboard.{
  WatchBackend, choose_backend, Holder, wl_copy, xclip, holder_command, over_wayland, over_x11,
}
use tassh.Clipboard.Tools.{check_clipboard_tools, ToolError, tool_found}
use tassh.Prelude.{
  ℕ, Option, Text, ◌≡◌, codes, Bool, true, ok, some, Result, ◌∷◌, none, false, refl, arith, [],
  ok-injective,
}

own :
    (s : Spawned) (n : ℕ) (m : DisplayManager)
    → s.display_str ≡ display_of n
    → ◌≡◌ {A = Result DisplayError DisplayManager}
        (ok (record { env = xvfb; display_str = s.display_str; xvfb_child = some s.child }))
        (ok m)
    → let (d, w) = watcher_env none none m in
      (backend : WatchBackend) × (choose_backend d w ≡ ok backend)
unfolding watcher_env choose_backend display_of
own s n m e i = (over_x11 (display_of n), ground (arith, ok-injective i))

has_wayland :
    (display : Option Text) (c : ℕ) (w : Text) (m : DisplayManager)
    → let (d', w') = watcher_env display (some (c ∷ w)) m in
      choose_backend d' w' ≡ ok (over_wayland (c ∷ w))
unfolding watcher_env choose_backend
has_wayland none c w m = refl
has_wayland (some []) c w m = refl
has_wayland (some (x ∷ d)) c w m = refl

-- A daemon whose Xvfb came up with a display number has a clipboard to watch, whatever the environment
-- variables say: its watcher finds a backend.
pub watcher_has_backend :
    (wayland_display display : Option Text) (s : Spawned) (n : ℕ) (m : DisplayManager)
    → s.display_str ≡ display_of n
    → detect_and_init true wayland_display display (some s) true ≡ ok m
    → let (d, w) = watcher_env display wayland_display m in
      (backend : WatchBackend) × (choose_backend d w ≡ ok backend)
unfolding detect_and_init watcher_env choose_backend display_of
watcher_has_backend (some (c ∷ w)) display s n m e i =
    (over_wayland (c ∷ w), has_wayland display c w m)
watcher_has_backend none (some (c ∷ d)) s n m e i = (over_x11 (c ∷ d), refl)
watcher_has_backend (some []) (some (c ∷ d)) s n m e i = (over_x11 (c ∷ d), refl)
watcher_has_backend none none s n m e i = own s n m e i
watcher_has_backend none (some []) s n m e i = own s n m e i
watcher_has_backend (some []) none s n m e i = own s n m e i
watcher_has_backend (some []) (some []) s n m e i = own s n m e i

-- The program of a clipboard holder.
abbrev pub program : Holder → Text
program wl_copy = codes "wl-copy"
program (xclip display) = codes "xclip"

found : (missing : ToolError) (o : Option Bool) → tool_found missing o ≡ ok tt → o ≡ some true
found missing none h = cc
found missing (some true) h = refl
found missing (some false) h = cc

-- Where the check of the tools passes, the writer has a command, and its program was found.
pub check_clipboard_tools-holder_command :
    (which : Text → Option Bool) (env : DisplayEnvironment) (display_str display_var : Option Text)
    → check_clipboard_tools which env ≡ ok tt
    → (command : Holder) × (holder_command env display_str display_var ≡ ok command)
      × (which (program command) ≡ some true)
unfolding check_clipboard_tools holder_command
check_clipboard_tools-holder_command which wayland ds dv h = (wl_copy, refl, found _ _ h)
check_clipboard_tools-holder_command which headless ds dv h = cc
check_clipboard_tools-holder_command which x11 (some d) dv h = (xclip d, refl, found _ _ h)
check_clipboard_tools-holder_command which x11 none (some d) h = (xclip d, refl, found _ _ h)
check_clipboard_tools-holder_command which x11 none none h = (xclip (codes ":0"), refl, found _ _ h)
check_clipboard_tools-holder_command which xvfb (some d) dv h = (xclip d, refl, found _ _ h)
check_clipboard_tools-holder_command which xvfb none (some d) h = (xclip d, refl, found _ _ h)
check_clipboard_tools-holder_command which xvfb none none h =
    (xclip (codes ":0"), refl, found _ _ h)
