-- ===== src/Locks/Stale.antt =====
-- src/display.rs: which locks are removed, and the number that Xvfb reports.
use tassh.Strings.{trim, is_whitespace}
use tassh.Strings.Numbers.{
  parse_unsigned, to_string, parse_unsigned-to_string, IsDigit, to_string-IsDigit,
}
use tassh.Strings.Trim.{NonePass, trim_matches-append}
use tassh.Protocol.{u32_max}
use tassh.Locks.{
  Kill, signalled, no_process, not_permitted, LockFiles, parse_pid, clean_lock, clean_from,
  clean_stale_xvfb_locks, read_displayfd,
}
use tassh.Prelude.{
  ℕ, ◌≡◌, Text, if◌then◌else◌, some, ◌<◌, leb, ltb, none, ◌&&◌, arith, false, ◌+◌, ◌∙◌, suc, zero,
  ◌⊎◌, true, ap, Bool, Option-cases, ◌≢◌, ◌≤◌, inl, ◌++◌, inr, ◌∷◌, [], refl, All,
}

Kill-cases : (x : Kill) → (x ≡ signalled) ⊎ ((x ≡ no_process) ⊎ (x ≡ not_permitted))
Kill-cases signalled = inl refl
Kill-cases no_process = inr (inl refl)
Kill-cases not_permitted = inr (inr refl)

clean_from_lem :
    (kill : ℕ → Kill) (n count k : ℕ) (files : ℕ → LockFiles)
    → clean_from kill n count files k
      ≡ (if leb n k && ltb k (n + count) then clean_lock kill (files k) else files k)
unfolding clean_from
clean_from_lem kill n zero k files = ground arith
clean_from_lem kill n (suc count) k files =
    ground (arith, clean_from_lem kill (suc n) count k files)

leb_zero : (k : ℕ) → leb 0 k ≡ true
leb_zero k = ground arith

-- The loop looks at each of the first hundred displays once, and at no other.
clean_stale_xvfb_locks_lem :
    (kill : ℕ → Kill) (k : ℕ) (files : ℕ → LockFiles)
    → clean_stale_xvfb_locks kill files k
      ≡ (if ltb k 100 then clean_lock kill (files k) else files k)
unfolding clean_stale_xvfb_locks
clean_stale_xvfb_locks_lem kill k files =
    clean_from_lem kill 0 100 k files
    ∙ ap (λ b. if b && ltb k 100 then clean_lock kill (files k) else files k) (leb_zero k)

same_either : {A : Type 0} (b : Bool) (x : A) → (if b then x else x) ≡ x
same_either true x = refl
same_either false x = refl

clean_lock_kept :
    (kill : ℕ → Kill) (files : LockFiles) (pid_str : Text)
    → files.lock ≡ some pid_str
    → ((pid : ℕ) → parse_pid pid_str ≡ some pid → kill pid ≡ signalled)
    → clean_lock kill files ≡ files
unfolding clean_lock
clean_lock_kept kill files pid_str l alive = elim (Option-cases (parse_pid pid_str)) [
  | inl e ↦ ground arith
  | inr (pid, e) ↦ ground (arith, alive pid e)
]

clean_lock_removed :
    (kill : ℕ → Kill) (files : LockFiles) (pid_str : Text) (pid : ℕ)
    → files.lock ≡ some pid_str
    → parse_pid pid_str ≡ some pid
    → kill pid ≢ signalled
    → clean_lock kill files ≡ record { lock = none; socket = false }
unfolding clean_lock
clean_lock_removed kill files pid_str pid l e h = ground (arith, Kill-cases (kill pid))

-- The lock of a display whose server runs under the daemon's own account stays, as does its socket, and
-- so does every lock that names no process.
pub live_lock_kept :
    (kill : ℕ → Kill) (k : ℕ) (files : ℕ → LockFiles) (pid_str : Text)
    → (files k).lock ≡ some pid_str
    → ((pid : ℕ) → parse_pid pid_str ≡ some pid → kill pid ≡ signalled)
    → clean_stale_xvfb_locks kill files k ≡ files k
live_lock_kept kill k files pid_str l alive =
    clean_stale_xvfb_locks_lem kill k files
    ∙ rw (clean_lock_kept kill (files k) pid_str l alive) (same_either (ltb k 100) (files k))

-- A lock below 100 whose process may not be signalled is removed with its socket, although the process
-- lives: `kill` fails for a server that belongs to another user as it does for a dead one.
foreign_lock_removed :
    (kill : ℕ → Kill) (k pid : ℕ) (files : ℕ → LockFiles) (pid_str : Text)
    → k < 100
    → (files k).lock ≡ some pid_str
    → parse_pid pid_str ≡ some pid
    → kill pid ≡ not_permitted
    → clean_stale_xvfb_locks kill files k ≡ record { lock = none; socket = false }
foreign_lock_removed kill k pid files pid_str b l p h =
    clean_stale_xvfb_locks_lem kill k files
    ∙ ground (arith, clean_lock_removed kill (files k) pid_str pid l p)

digits_no_space : (s : Text) → All IsDigit s → NonePass is_whitespace s
unfolding is_whitespace
digits_no_space [] h = tt
digits_no_space (c ∷ s) (hc, h) = (ground arith, digits_no_space s h)

-- The number that Xvfb prints, with a line feed behind it, is read back.
pub read_displayfd-to_string :
    (n : ℕ) → n ≤ u32_max → read_displayfd (some (to_string n ++ 10 ∷ [])) ≡ some n
unfolding read_displayfd trim is_whitespace
read_displayfd-to_string n h =
    ap (parse_unsigned u32_max) (
      trim_matches-append is_whitespace (to_string n) 10 (digits_no_space _ (to_string-IsDigit n))
        refl)
    ∙ parse_unsigned-to_string u32_max n h (omega arith)
