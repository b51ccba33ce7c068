-- ===== src/Clipboard/Tools.antt =====
-- src/clipboard.rs: the commands behind the clipboard, and the start of the watcher.
-- What a command does, the environment variables and arboard are arguments.
use tassh.Protocol.{DisplayEnvironment, Frame, wayland, x11, xvfb, headless}
use tassh.Peer.{usize_mod}
use tassh.Display.{non_empty}
use tassh.Clipboard.{
  Poll, image, no_image, failed, WatchBackend, WatchError, no_display, read_failed, arboard_loop,
  watch_clipboard_with_command,
}
use tassh.Prelude.{
  ℕ, Option, Text, Bool, List, Result, err, codes, true, ok, ◌>>=◌, if◌then◌else◌, none, map_option,
  not, some, ◌∷◌, false, ◌||◌, is_some, length, ◌==◌, [], ◌*◌, ◌%◌,
}

pub data ToolError : Type 0 where
  which_failed xclip_not_found wl_copy_not_found no_display_available : ToolError

abbrev pub tool_found : ToolError → Option Bool → Result ToolError (Unit {0})
tool_found missing none = err which_failed
tool_found missing (some true) = ok tt
tool_found missing (some false) = err missing

-- `which` is whether the command `which` finds a program, `none` if it cannot be run.
unfoldable pub check_clipboard_tools :
    (Text → Option Bool) → DisplayEnvironment → Result ToolError (Unit {0})
check_clipboard_tools which wayland = tool_found wl_copy_not_found (which (codes "wl-copy"))
check_clipboard_tools which x11 = tool_found xclip_not_found (which (codes "xclip"))
check_clipboard_tools which xvfb = tool_found xclip_not_found (which (codes "xclip"))
check_clipboard_tools which headless = err no_display_available

-- How a clipboard command ended: beyond two seconds, with an error of the system, or with its exit
-- status and its output.
pub data Output : Type 0 where
  timed_out : Output
  io_failed : Output
  finished : Bool → List ℕ → Output

abbrev is_nil : List ℕ → Bool
is_nil [] = true
is_nil (b ∷ bytes) = false

unfoldable pub read_output : Output → Result WatchError (Option (List ℕ))
read_output timed_out = ok none
read_output io_failed = err read_failed
read_output (finished success stdout) =
    if not success || is_nil stdout then ok none else ok (some stdout)

-- `command` is what xclip or wl-paste does for a backend.
unfoldable pub read_clipboard_png :
    (WatchBackend → Output) → WatchBackend → Result WatchError (Option (List ℕ))
unfolding read_output
read_clipboard_png command backend = read_output (command backend)

-- A round of the watch loop: the read, and whether the channel takes a frame.
unfoldable pub poll_of : Output → Bool → Poll
unfolding read_output
poll_of output open' = elim (read_output output) [
  | ok (some png) ↦ image png open'
  | ok none ↦ no_image
  | err e ↦ failed
]

unfoldable pub check_x11_display : Option Text → Result WatchError (Unit {0})
check_x11_display display = elim (non_empty display) [ none ↦ err no_display | some d ↦ ok tt ]

module _ (content_hash : List ℕ → Text) where
  -- The first image is recorded and not sent.
  abbrev arboard_from :
      (List ℕ → Option (List ℕ))
      → List Poll
      → Result WatchError (Option (List ℕ))
      → Result WatchError (List Frame)
  arboard_from rgba_to_png polls first = first >>= λ rgba.
      ok (arboard_loop content_hash rgba_to_png (map_option content_hash rgba) polls)

  -- `opened` is whether arboard connects, with the first image.
  unfoldable pub watch_clipboard_with_arboard :
      (List ℕ → Option (List ℕ))
      → Option Text
      → Option Text
      → Result WatchError (Option (List ℕ))
      → List Poll
      → Result WatchError (List Frame)
  unfolding check_x11_display
  watch_clipboard_with_arboard rgba_to_png wayland_display display opened polls =
      if is_some (non_empty wayland_display)
      then arboard_from rgba_to_png polls opened
      else (check_x11_display display >>= λ _. arboard_from rgba_to_png polls opened)

  -- An override, also an empty one, decides for the commands.
  unfoldable pub watch_clipboard :
      (List ℕ → Option (List ℕ))
      → Option Text
      → Option Text
      → Option Text
      → Option Text
      → (WatchBackend → Output)
      → Result WatchError (Option (List ℕ))
      → List Poll
      → Result WatchError (List Frame)
  unfolding read_clipboard_png watch_clipboard_with_arboard
  watch_clipboard rgba_to_png display_override wayland_display_override wayland_display display
        command opened polls =
      if is_some display_override || is_some wayland_display_override
      then watch_clipboard_with_command content_hash display_override wayland_display_override
          (read_clipboard_png command) polls
      else watch_clipboard_with_arboard rgba_to_png wayland_display display opened polls

-- The product of the sizes is a `usize`. `encode` is the PNG encoder on pixels of the right number.
unfoldable pub rgba_to_png : (ℕ → ℕ → List ℕ → Option (List ℕ)) → ℕ → ℕ → List ℕ → Option (List ℕ)
rgba_to_png encode width height rgba =
    if not (length rgba == width * height * 4 % usize_mod) then none else encode width height rgba
