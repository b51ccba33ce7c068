-- ===== src/Locks/Spawn.antt =====
-- src/display.rs: `spawn_xvfb`, with the pipe through which Xvfb reports its display.
use tassh.Strings.Numbers.{to_string}
use tassh.Protocol.{u32_max}
use tassh.Display.{Spawned}
use tassh.Locks.{read_displayfd, display_of}
use tassh.Locks.Stale.{read_displayfd-to_string}
use tassh.Prelude.{
  ℕ, Text, List, Option, Bool, Result, ok, err, some, none, true, false, [], ◌∷◌, ◌++◌, ◌≡◌, ◌≤◌,
}

pub data SpawnError : Type 0 where
  pipe_failed xvfb_not_found spawn_failed no_display_number : SpawnError

pub data PipeEnd : Type 0 where
  read_end write_end : PipeEnd

-- What a start leaves behind in the daemon: the ends of the pipe that are open, and the Xvfb that was
-- started, if one was.
pub record Left : Type 0 where
  pub open' : List PipeEnd
  pub child : Option ℕ

abbrev named : ℕ → Option ℕ → Left × Result SpawnError Spawned
named child none = (record { open' = []; child = some child }, err no_display_number)
named child (some n) = (
  record { open' = []; child = some child },
  ok (record { child = child; display_str = display_of n }),
)

-- `pipe` is whether the pipe could be made, `spawned` the child, and `written` what Xvfb wrote before it
-- closed the pipe. The read end is closed when it has been read.
unfoldable pub spawn_xvfb :
    Bool → Result SpawnError ℕ → Option Text → Left × Result SpawnError Spawned
spawn_xvfb false spawned written = (record { open' = []; child = none }, err pipe_failed)
spawn_xvfb true (err e) written =
    (record { open' = read_end ∷ write_end ∷ []; child = none }, err e)
spawn_xvfb true (ok child) written = named child (read_displayfd written)

-- An Xvfb that reports a display as a number and a line feed is taken on with that display, and the pipe
-- is closed.
pub spawn_xvfb-display_of :
    (child n : ℕ)
    → n ≤ u32_max
    → spawn_xvfb true (ok child) (some (to_string n ++ 10 ∷ [])) ≡ (
      record { open' = []; child = some child },
      ok (record { child = child; display_str = display_of n }),
    )
unfolding spawn_xvfb
spawn_xvfb-display_of child n h = rw (read_displayfd-to_string n h)
