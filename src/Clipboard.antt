-- ===== src/Clipboard.antt =====
-- src/clipboard.rs: the watcher that forwards new images, and the writer that holds the clipboard.
-- SHA-256, the PNG encoder and the clipboard commands are not part of the sources: the hash and the
-- encoder are parameters, and each read of the clipboard is an element of a list of polls.
pub mod Restarted
pub mod Tools
pub mod Startup
pub mod Watch
pub mod Writer
pub mod Echo
mod Examples
use tassh.Protocol.{Frame, new_png, DisplayEnvironment, wayland, x11, xvfb, headless}
use tassh.Display.{non_empty}
use tassh.Prelude.{
  ℕ, List, Text, Option, Bool, Result, some, [], ok, false, if◌then◌else◌, ◌∷◌, none, ◌>>=◌, err,
  text_eq, map_option, codes, ◌++◌,
}

-- A read of the clipboard in the loop, and whether the channel takes the frame if one is sent.
pub data Poll : Type 0 where
  image : List ℕ → Bool → Poll
  no_image : Poll
  failed : Poll

pub data WatchBackend : Type 0 where
  over_x11 over_wayland : Text → WatchBackend

pub data WatchError : Type 0 where
  no_display : WatchError
  read_failed : WatchError

-- The backend that `watch_clipboard_with_command` chooses.
unfoldable pub choose_backend : Option Text → Option Text → Result WatchError WatchBackend
choose_backend display_override wayland_display_override =
    elim (non_empty wayland_display_override) [
      | some wd ↦ ok (over_wayland wd)
      | none ↦ elim (non_empty display_override) [
        | some dpy ↦ ok (over_x11 dpy)
        | none ↦ err no_display
      ]
    ]

-- `Some(hash) == last_hash`
abbrev pub is_last : Text → Option Text → Bool
is_last hash none = false
is_last hash (some last) = text_eq hash last

module _ (content_hash : List ℕ → Text) where
  -- The loop of `watch_clipboard_with_command`: the frames that it sends, up to the first that the
  -- channel refuses.
  unfoldable pub watch_loop : Option Text → List Poll → List Frame
  watch_loop last_hash [] = []
  watch_loop last_hash (no_image ∷ polls) = watch_loop last_hash polls
  watch_loop last_hash (failed ∷ polls) = watch_loop last_hash polls
  watch_loop last_hash (image png open' ∷ polls) =
      let hash = content_hash png in
      let sent = watch_loop (some hash) polls in
      let skipped = watch_loop last_hash polls in
      if is_last hash last_hash then skipped else if open' then new_png png ∷ sent else []

  -- The first read is recorded and not sent. `none` inside the result means no image.
  unfoldable pub watch_from :
      Result WatchError (Option (List ℕ)) → List Poll → Result WatchError (List Frame)
  unfolding watch_loop
  watch_from first polls = do png ← first; ok (watch_loop (map_option content_hash png) polls)

  unfoldable pub watch_clipboard_with_command :
      Option Text
      → Option Text
      → (WatchBackend → Result WatchError (Option (List ℕ)))
      → List Poll
      → Result WatchError (List Frame)
  unfolding choose_backend watch_from
  watch_clipboard_with_command display wayland_display read polls = do
    backend ← choose_backend display wayland_display
    watch_from (read backend) polls

  -- The loop of `watch_clipboard_with_arboard`: the hash is over the pixels, and an image that
  -- cannot be encoded is neither sent nor recorded.
  unfoldable pub arboard_loop : (List ℕ → Option (List ℕ)) → Option Text → List Poll → List Frame
  arboard_loop rgba_to_png last_hash [] = []
  arboard_loop rgba_to_png last_hash (no_image ∷ polls) = arboard_loop rgba_to_png last_hash polls
  arboard_loop rgba_to_png last_hash (failed ∷ polls) = arboard_loop rgba_to_png last_hash polls
  arboard_loop rgba_to_png last_hash (image rgba open' ∷ polls) =
      let hash = content_hash rgba in
      let skipped = arboard_loop rgba_to_png last_hash polls in
      let sent = arboard_loop rgba_to_png (some hash) polls in
      if is_last hash last_hash then skipped else elim (rgba_to_png rgba) [
        | none ↦ skipped
        | some png ↦ if open' then new_png png ∷ sent else []
      ]

pub data WriteError : Type 0 where
  no_clipboard_display spawn_failed stdin_failed : WriteError

pub record ClipboardWriter : Type 0 where
  pub current_child : Option ℕ
  pub display : DisplayEnvironment
  pub display_str : Option Text

pub data Holder : Type 0 where
  wl_copy : Holder
  xclip : Text → Holder

-- The command that holds the clipboard, by display environment; `display_var` is $DISPLAY.
unfoldable pub holder_command :
    DisplayEnvironment → Option Text → Option Text → Result WriteError Holder
holder_command wayland display_str display_var = ok wl_copy
holder_command headless display_str display_var = err no_clipboard_display
holder_command _ (some d) display_var = ok (xclip d)
holder_command _ none (some d) = ok (xclip d)
holder_command _ none none = ok (xclip (codes ":0"))

-- What the system does with a write: the child's number if it could be spawned, and whether its
-- standard input took the image.
pub record Attempt : Type 0 where
  pub spawned : Option ℕ
  pub piped : Bool

-- The processes that are started and killed by a write, in order.
pub data Effect : Type 0 where
  killed : ℕ → Effect
  started : Holder → ℕ → Effect

abbrev kill_previous : Option ℕ → List Effect
kill_previous none = []
kill_previous (some child) = killed child ∷ []

abbrev hold :
    ClipboardWriter
    → Holder
    → Attempt
    → List Effect
    → ClipboardWriter × List Effect × Result WriteError (Unit {0})
hold w command a before = elim a.spawned [
  | none ↦ (w, before, err spawn_failed)
  | some child ↦
      if a.piped
      then (record w { current_child = some child }, before ++ started command child ∷ [], ok tt)
      else (w, before ++ started command child ∷ [], err stdin_failed)
]

unfoldable pub write :
    Option Text
    → Attempt
    → ClipboardWriter
    → ClipboardWriter × List Effect × Result WriteError (Unit {0})
unfolding holder_command
write display_var a w =
    let before = kill_previous w.current_child in
    let free = record w { current_child = none } in
    elim (holder_command w.display w.display_str display_var) [
      | err e ↦ (free, before, err e)
      | ok command ↦ hold free command a before
    ]
