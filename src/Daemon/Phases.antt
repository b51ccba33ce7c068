-- ===== src/Daemon/Phases.antt =====
-- What src/daemon.rs promises of the connection to one host: a machine with three phases, and which
-- change of phase each kind of step may bring about.
pub mod Machine
use tassh.Peer.{PeerState, get}
use tassh.Daemon.{
  Daemon, Task, watch, claiming, probing, dialing, forwarding, cleaning, listing, scanning,
  liveness, receiving, Event, connect, disconnect, refresh, discovered, accepted, run, step, pick,
}
use tassh.Prelude.{
  Text, Option, Bool, List, true, false, some, none, [], ◌∷◌, not, ◌||◌, ◌&&◌, text_eq,
  if◌then◌else◌,
}

pub data Phase : Type 0 where
  idle trying up : Phase

abbrev phase_of : PeerState → Phase
phase_of p = if p.connected then up else if p.connecting then trying else idle

-- An unknown host is idle.
abbrev pub phase_at : Option PeerState → Phase
phase_at none = idle
phase_at (some p) = phase_of p

-- The kinds of steps, as seen from one host.
pub data Cause : Type 0 where
  other : Cause
  -- a connection may be claimed
  opening : Cause
  -- a probe or an attempt to connect failed
  missed : Cause
  -- an attempt to connect succeeded
  dialed : Cause
  -- a process or a connection ended, or a peer is looked at and does not answer
  closing : Cause

abbrev pub same : Phase → Phase → Bool
same idle idle = true
same trying trying = true
same up up = true
same _ _ = false

-- The edges of the machine.
abbrev pub allowed : Cause → Phase → Phase → Bool
allowed other x y = same x y
allowed opening idle y = not (same y up)
allowed opening x y = same x y
allowed missed trying y = same y idle
allowed missed x y = same x y
allowed dialed up y = same y up
allowed dialed x y = not (same y trying)
allowed closing x y = same x y || same y idle

abbrev task_kind : Task → Bool → Cause
task_kind (watch j pid) b = closing
task_kind (claiming j) b = opening
task_kind (probing j) true = other
task_kind (probing j) false = missed
task_kind (dialing j) true = dialed
task_kind (dialing j) false = missed
task_kind (forwarding j c) b = closing
task_kind (cleaning j) b = closing
task_kind (listing check) b = other
task_kind (scanning j check) b = other
task_kind (liveness j true) true = other
task_kind (liveness j false) true = opening
task_kind (liveness j was) false = closing
task_kind (receiving j) b = other

-- The host whose peer a task works on.
abbrev is_for : Text → Task → Bool
is_for h (watch j pid) = text_eq j h
is_for h (claiming j) = text_eq j h
is_for h (probing j) = text_eq j h
is_for h (dialing j) = text_eq j h
is_for h (forwarding j c) = text_eq j h
is_for h (cleaning j) = text_eq j h
is_for h (listing check) = false
is_for h (scanning j check) = text_eq j h
is_for h (liveness j was) = text_eq j h
is_for h (receiving j) = text_eq j h

abbrev pub task_cause : Text → Task → Bool → Cause
task_cause h t b = if is_for h t then task_kind t b else other

abbrev pub cause : Text → Daemon → Event → Cause
cause h d (disconnect j pid) = if text_eq j h then closing else other
cause h d (discovered j pids) = if text_eq j h then opening else other
cause h d (run n b) = elim (pick n d.tasks) [ none ↦ other | some (t, rest) ↦ task_cause h t b ]
cause h d _ = other
