-- ===== src/Locks/Examples.antt =====
-- Locks of a dead server, of a live one and of another user.
use tassh.Locks.{Kill, signalled, no_process, not_permitted, LockFiles, parse_pid, display_of}
use tassh.Prelude.{ℕ, if◌then◌else◌, Text, codes, ◌≡◌, some, ◌==◌, true, none, arith, refl}

abbrev kill : ℕ → Kill
kill pid = if pid == 10 then signalled else if pid == 20 then not_permitted else no_process

abbrev lock_of : Text → LockFiles
lock_of s = record { lock = some s; socket = true }

abbrev files : ℕ → LockFiles
files k = if k == 1 then lock_of (codes "        10\n") else lock_of (codes "20\n")

pids_read : (parse_pid (codes "        10\n") ≡ some 10) × (parse_pid (codes "-4") ≡ none)
unfolding parse_pid
pids_read = (refl, refl)

alive : (pid : ℕ) → parse_pid (codes "        10\n") ≡ some pid → kill pid ≡ signalled
alive pid e = ground (arith, pids_read)

display_named : display_of 12 ≡ codes ":12"
unfolding display_of
display_named = refl
