-- ===== src/Clipboard/Examples.antt =====
-- The theorems about src/clipboard.rs with a hash that is the content itself.
use tassh.Locks.{display_file, display_of}
use tassh.Display.{Spawned, detect_and_init, DisplayManager}
use tassh.Display.Restart.{
  Displays, wire, start_displays, run_monitor, Respawn, Server, init_server, monitor_server,
  respawn,
}
use tassh.Clipboard.{
  xclip, Poll, image, no_image, watch_from, ClipboardWriter, Attempt, failed, watch_loop,
}
use tassh.Clipboard.Restarted.{writes_to, restart_leaves_writer}
use tassh.Prelude.{
  Bool, length, some, ok, ◌↔◌, ◌++◌, ℕ, ◌≢◌, arith, refl, true, List, ◌∷◌, text_eq, none, [], codes,
  Option, ◌≡◌, Text, false,
}
use tassh.Clipboard.Echo.Turns.{
  Pair, left_polls, right_polls, left_writes, right_writes, turn, turns, sent_in,
}
use tassh.Clipboard.Echo.Fair.{image_settles_in_any_order}
use tassh.Protocol.{Frame, new_png, xvfb}
use tassh.Clipboard.Writer.{write_all, alive, held, one_holder}
use tassh.Clipboard.Tools.{poll_of, finished, io_failed}
use tassh.Clipboard.Echo.{Side, sends, show, recorded}
use tassh.Clipboard.Echo.Swap.{images_swap_in_step, intervals, at_rest}

abbrev polls : List Poll
polls = image (1 ∷ []) true ∷ no_image ∷ image (2 ∷ []) true ∷ image (2 ∷ []) true ∷ []

abbrev second : Frame
second = record { frame_type = 1; payload = 2 ∷ [] }

-- The image that was there at the start is not sent, and the other is sent once.
watched : watch_from (λ b. b) (ok (some (1 ∷ []))) polls ≡ ok (second ∷ [])
unfolding watch_from text_eq new_png
watched = refl

abbrev idle_writer : ClipboardWriter
idle_writer = record { current_child = none; display = xvfb; display_str = some (codes ":7") }

abbrev writes : List (Option Text × Attempt)
writes =
    (none, record { spawned = some 3; piped = true })
    ∷ (none, record { spawned = some 4; piped = true })
    ∷ []

one_holder_example :
    alive [] (write_all writes idle_writer).1 ≡ held (write_all writes idle_writer).0.current_child
one_holder_example = one_holder writes idle_writer (refl, (refl, tt))

abbrev own_display : DisplayManager
own_display = record { env = xvfb; display_str = display_of 7; xvfb_child = some 3 }

reads_polled :
    (poll_of (finished true (7 ∷ [])) true ≡ image (7 ∷ []) true)
    × (poll_of (finished false (7 ∷ [])) true ≡ no_image)
    × (poll_of io_failed true ≡ failed)
unfolding poll_of
reads_polled = (refl, refl, refl)

-- Each side has just come to its image, the left one to 1 and the right one to 2.
abbrev left : Side
left = record { clipboard = 1 ∷ []; last_hash = none }

abbrev right : Side
right = record { clipboard = 2 ∷ []; last_hash = none }

images_differ : (◌≡◌ {A = List ℕ} (1 ∷ []) (2 ∷ [])) → ⊥
images_differ e = ground arith

abbrev two_intervals : List (Bool × Bool)
two_intervals = (true, false) ∷ (false, true) ∷ []

images_swap_in_step_example :
    let p = at_rest left right in
    let q = turns (λ b. b) (intervals two_intervals) p in
    (length (sent_in (λ b. b) (intervals two_intervals) p) ≡ 4)
    × (sends (λ b. b) q.left ≡ new_png q.left.clipboard ∷ [])
    × (sends (λ b. b) q.right ≡ new_png q.right.clipboard ∷ [])
    × (q.left.clipboard ≢ q.right.clipboard)
images_swap_in_step_example =
    images_swap_in_step (λ b. b) left right two_intervals refl refl images_differ

-- The same start in an order in which one side polls between the writes: both come to rest.
settled_otherwise :
    let ts =
      left_polls ∷ right_polls ∷ right_writes ∷ right_polls ∷ left_writes ∷ left_writes ∷ [] in
    let p = turns (λ b. b) ts (at_rest left right) in
    (sends (λ b. b) p.left ≡ []) × (sends (λ b. b) p.right ≡ [])
unfolding turns turn sends watch_loop show recorded new_png text_eq
settled_otherwise = (refl, refl)

-- The right one knows its image; it also polls before the new one has arrived, and both poll at the end.
abbrev knowing : Side
knowing = record { clipboard = 2 ∷ []; last_hash = some (2 ∷ []) }

image_settles_in_any_order_example :
    let ts =
      (left_writes ∷ [])
      ++ left_polls
        ∷ ((right_polls ∷ [])
            ++ right_writes
              ∷ ([]
                  ++ right_polls
                    ∷ ((left_polls ∷ []) ++ left_writes ∷ (left_polls ∷ right_polls ∷ [])))) in
    let start : Pair = record { left = left; right = knowing; to_left = []; to_right = [] } in
    let both : Side = record { clipboard = 1 ∷ []; last_hash = some (1 ∷ []) } in
    (turns (λ b. b) ts start ≡ record { left = both; right = both; to_left = []; to_right = [] })
    × (sent_in (λ b. b) ts start ≡ new_png (1 ∷ []) ∷ new_png (1 ∷ []) ∷ [])
image_settles_in_any_order_example =
    image_settles_in_any_order (λ b. b) left knowing (left_writes ∷ []) (right_polls ∷ []) []
      (left_polls ∷ []) (left_polls ∷ right_polls ∷ []) refl refl images_differ

-- Xvfb exits, does not start at first, and then comes up on another display.
abbrev elsewhere : List Respawn
elsewhere =
    record { display = none; publish = true }
    ∷ record { display = some (display_of 8); publish = true }
    ∷ []

abbrev spawned_7 : Spawned
spawned_7 = record { child = 3; display_str = display_of 7 }

abbrev nothing : Server
nothing = record { shown = none; variable = none; published = none }

abbrev first_displays : Displays
first_displays = record {
  current = init_server (some spawned_7) true nothing;
  wiring = wire none none own_display;
}

displays_started : start_displays none none (some spawned_7) true nothing ≡ some first_displays
unfolding start_displays detect_and_init
displays_started = refl

shown_elsewhere : (run_monitor elsewhere first_displays).current.shown ≡ some (display_of 8)
unfolding run_monitor monitor_server init_server respawn
shown_elsewhere = refl

restart_leaves_writer_example :
    let now = run_monitor elsewhere first_displays in
    (now.current.published ≡ some (display_file (display_of 8)))
    × (now.current.variable ≡ some (display_of 8))
    × (now.wiring.watcher ≡ (some (display_of 7), none))
    × ((writes_to now ≡ ok (xclip (display_of 8))) ↔ (display_of 8 ≡ display_of 7))
restart_leaves_writer_example =
    restart_leaves_writer none none spawned_7 nothing first_displays elsewhere (display_of 8)
      displays_started (refl, (refl, tt)) shown_elsewhere
