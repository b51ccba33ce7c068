-- ===== src/Locks.antt =====
-- src/display.rs: the lock files of earlier Xvfb servers, and what a new server reports.
-- The files of /tmp and the outcome of `kill(pid, 0)` are arguments.
pub mod Stale
pub mod Spawn
mod Examples
use tassh.Strings.{trim, is_empty}
use tassh.Strings.Numbers.{scan_digits, parse_unsigned, to_string}
use tassh.Protocol.{u32_max}
use tassh.Prelude.{
  ℕ, ◌^◌, Text, Option, Bool, suc, ◌-◌, true, if◌then◌else◌, ◌∷◌, codes, some, false, ◌==◌, ◌++◌,
  none, ltb, zero,
}

abbrev pub i32_max : ℕ
i32_max = 2 ^ 31 - 1

-- `parse::<pid_t>()` with the guard `p > 0`: a text with a minus sign is an error or no positive number.
unfoldable pub parse_pid : Text → Option ℕ
unfolding trim parse_unsigned
parse_pid s = elim (parse_unsigned i32_max (trim s)) [
  | none ↦ none
  | some p ↦ if ltb 0 p then some p else none
]

-- The files of a display number.
pub record LockFiles : Type 0 where
  -- the text of /tmp/.X{n}-lock, if it can be read
  pub lock : Option Text
  -- whether /tmp/.X11-unix/X{n} is there
  pub socket : Bool

-- `kill(pid, 0)`: it returns 0, or -1 with ESRCH if there is no such process, or -1 with EPERM if it
-- belongs to someone else.
pub data Kill : Type 0 where
  signalled no_process not_permitted : Kill

abbrev succeeds : Kill → Bool
succeeds signalled = true
succeeds _ = false

-- One round of the loop.
unfoldable pub clean_lock : (ℕ → Kill) → LockFiles → LockFiles
unfolding parse_pid
clean_lock kill files = elim files.lock [
  | none ↦ files
  | some pid_str ↦ elim (parse_pid pid_str) [
    | none ↦ files
    | some pid ↦ if succeeds (kill pid) then files else record { lock = none; socket = false }
  ]
]

-- The files by display number; the loop goes over the first hundred.
clean_from : (ℕ → Kill) → ℕ → ℕ → (ℕ → LockFiles) → ℕ → LockFiles
unfolding clean_lock
clean_from kill n zero files k = files k
clean_from kill n (suc count) files k =
    let rest = clean_from kill (suc n) count files k in
    if k == n then clean_lock kill (files k) else rest

unfoldable pub clean_stale_xvfb_locks : (ℕ → Kill) → (ℕ → LockFiles) → ℕ → LockFiles
unfolding clean_from
clean_stale_xvfb_locks kill files = clean_from kill 0 100 files

-- What Xvfb wrote to the pipe, `none` if it could not be read.
unfoldable pub read_displayfd : Option Text → Option ℕ
unfolding parse_unsigned trim
read_displayfd none = none
read_displayfd (some buf) = parse_unsigned u32_max (trim buf)

-- The display of a spawned Xvfb.
unfoldable pub display_of : ℕ → Text
unfolding to_string
display_of display_num = b':' ∷ to_string display_num

-- ~/.tassh/display
unfoldable pub display_file : Text → Text
display_file display_str =
    codes "export DISPLAY="
    ++ display_str
    ++ codes "\nunset WAYLAND_DISPLAY\nunset WAYLAND_SOCKET\n"
