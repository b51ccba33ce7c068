-- ===== src/Daemon/Valid.antt =====
-- The invariant of one peer of src/peer.rs, kept by every critical section of src/daemon.rs.
use tassh.Peer.{PeerState, fresh}
use tassh.Daemon.Sections.{
  contains, remove_pid, track_pid, claim, probe_missed, pid_exit, register, dial_failed,
  connection_ended, clean_idle, revive, probe_lost, inbound_opened, inbound_closed, track_pids,
}
use tassh.Prelude.{
  refl, suc, zero, ℕ, List, ◌≡◌, arith, Bool, is_some, false, length, ◌∷◌, true, ◌+◌, [], ◌<◌,
  if◌then◌else◌, ◌≤◌, ◌^◌, All, Bool-cases, ◌==◌, inl, inr,
}

abbrev pub Distinct : List ℕ → Type 0
Distinct [] = Unit
Distinct (x ∷ xs) = (contains xs x ≡ false) × Distinct xs

-- A PID is a `u32`.
abbrev pub pid_mod : ℕ
pid_mod = 2 ^ 32

pub record IsValid (p : PeerState) : Type 0 where
  -- there is a close channel exactly while the peer is connected
  pub paired : p.connected ≡ is_some p.close_tx
  -- a connected peer has a session
  pub busy : p.connected ≡ true → 0 < p.session_count
  -- and no attempt in progress
  pub settled : p.connected ≡ true → p.connecting ≡ false
  -- sessions are not counted beyond the processes that are watched
  pub counted : p.session_count ≤ length p.watched_pids
  pub distinct : Distinct p.watched_pids
  pub small : All (λ pid. pid < pid_mod) p.watched_pids

contains-remove_pid_ne :
    (a b : ℕ) (xs : List ℕ) → contains xs b ≡ false → contains (remove_pid a xs) b ≡ false
unfolding contains remove_pid
contains-remove_pid_ne a b [] h = refl
contains-remove_pid_ne a b (x ∷ xs) h = ground (arith, contains-remove_pid_ne a b xs)

remove_pid-Distinct : (a : ℕ) (xs : List ℕ) → Distinct xs → Distinct (remove_pid a xs)
unfolding remove_pid
remove_pid-Distinct a [] h = tt
remove_pid-Distinct a (x ∷ xs) (out, h) =
    ground (arith, remove_pid-Distinct a xs h, contains-remove_pid_ne a x xs out)

remove_pid-All : (P : ℕ → Type 0) (a : ℕ) (xs : List ℕ) → All P xs → All P (remove_pid a xs)
unfolding remove_pid
remove_pid-All P a [] h = tt
remove_pid-All P a (x ∷ xs) (px, h) = elim (Bool-cases (x == a)) [
  | inl e ↦ rw (e, remove_pid) h
  | inr e ↦ rw (e, remove_pid) (px, remove_pid-All P a xs h)
]

pub length-remove_pid :
    (a : ℕ) (xs : List ℕ) → length (remove_pid a xs) + (if contains xs a then 1 else 0) ≡ length xs
unfolding contains remove_pid
length-remove_pid a [] = refl
length-remove_pid a (x ∷ xs) = ground (arith, length-remove_pid a xs)

below_without :
    (n : ℕ) (xs : List ℕ)
    → contains xs n ≡ false
    → All (λ pid. pid < suc n) xs
    → All (λ pid. pid < n) xs
unfolding contains
below_without n [] h b = tt
below_without n (x ∷ xs) h (bx, b) = (ground arith, below_without n xs (ground arith) b)

pub contains-remove_pid_self :
    (a : ℕ) (xs : List ℕ) → Distinct xs → contains (remove_pid a xs) a ≡ false
unfolding contains remove_pid
contains-remove_pid_self a [] h = refl
contains-remove_pid_self a (x ∷ xs) (out, h) = ground (arith, contains-remove_pid_self a xs h)

-- Distinct numbers below n are at most n.
pub length-le_of_Distinct :
    (n : ℕ) (xs : List ℕ) → Distinct xs → All (λ pid. pid < n) xs → length xs ≤ n
length-le_of_Distinct zero [] d b = omega arith
length-le_of_Distinct zero (x ∷ xs) d b = absurd (omega arith)
length-le_of_Distinct (suc n) xs d b = ground (
  arith,
  length-remove_pid n xs,
  length-le_of_Distinct n (remove_pid n xs) (remove_pid-Distinct n xs d) (
      below_without n (remove_pid n xs) (contains-remove_pid_self n xs d)
        (remove_pid-All _ n xs b)),
)

-- A valid peer has at most 2^32 sessions.
pub session_count-le : {p : PeerState} → IsValid p → p.session_count ≤ pid_mod
session_count-le {p} v =
    omega (arith, v.counted, length-le_of_Distinct pid_mod p.watched_pids v.distinct v.small)

pub fresh-IsValid : IsValid fresh
fresh-IsValid = ground arith

pub track_pid-IsValid :
    (pid : ℕ) {p : PeerState} → pid < pid_mod → IsValid p → IsValid (track_pid pid p).0
unfolding track_pid
track_pid-IsValid pid h v = ground (arith, session_count-le v)

pub claim-IsValid : {p : PeerState} → IsValid p → IsValid (claim p).0
unfolding claim
claim-IsValid v = ground arith

pub probe_missed-IsValid : {p : PeerState} → IsValid p → IsValid (probe_missed p)
unfolding probe_missed
probe_missed-IsValid v = ground arith

pub pid_exit-IsValid : (pid : ℕ) {p : PeerState} → IsValid p → IsValid (pid_exit pid p)
unfolding pid_exit
pid_exit-IsValid pid {p} v = ground (
  arith,
  length-remove_pid pid p.watched_pids,
  remove_pid-Distinct pid p.watched_pids v.distinct,
  remove_pid-All (λ q. q < pid_mod) pid p.watched_pids v.small,
)

pub register-IsValid : (c : ℕ) {p : PeerState} → IsValid p → IsValid (register c p).0
unfolding register
register-IsValid c v = ground arith

pub dial_failed-IsValid : {p : PeerState} → IsValid p → IsValid (dial_failed p)
unfolding dial_failed
dial_failed-IsValid v = ground arith

pub connection_ended-IsValid : {p : PeerState} → IsValid p → IsValid (connection_ended p)
unfolding connection_ended
connection_ended-IsValid v = ground arith

pub clean_idle-IsValid : {p : PeerState} → IsValid p → IsValid (clean_idle p)
unfolding clean_idle
clean_idle-IsValid v = ground arith

pub revive-IsValid : {p : PeerState} → IsValid p → IsValid (revive p).0
unfolding revive
revive-IsValid v = ground arith

pub probe_lost-IsValid : (was : Bool) {p : PeerState} → IsValid p → IsValid (probe_lost was p)
unfolding probe_lost
probe_lost-IsValid was v = ground arith

pub inbound_opened-IsValid : {p : PeerState} → IsValid p → IsValid (inbound_opened p)
unfolding inbound_opened
inbound_opened-IsValid v = ground arith

pub inbound_closed-IsValid : {p : PeerState} → IsValid p → IsValid (inbound_closed p)
unfolding inbound_closed
inbound_closed-IsValid v = ground arith

pub track_pids-IsValid :
    (pids : List ℕ) {p : PeerState}
    → All (λ pid. pid < pid_mod) pids
    → IsValid p
    → IsValid (track_pids pids p).0
unfolding track_pids
track_pids-IsValid [] h v = v
track_pids-IsValid (pid ∷ pids) (h, hs) v = track_pids-IsValid pids hs (track_pid-IsValid pid h v)
