-- ===== src/Daemon/Invariant.antt =====
-- Every event of src/daemon.rs keeps the invariant of every peer, in any order of events.
use tassh.Peer.{
  fresh, PeerState, PeerRegistry, get_or_create, get, get_mut, get-get_mut, get-get_or_create,
}
use tassh.Daemon.Valid.{
  IsValid, pid_mod, fresh-IsValid, track_pid-IsValid, claim-IsValid, probe_missed-IsValid,
  pid_exit-IsValid, register-IsValid, dial_failed-IsValid, connection_ended-IsValid,
  clean_idle-IsValid, revive-IsValid, probe_lost-IsValid, inbound_opened-IsValid,
  inbound_closed-IsValid, track_pids-IsValid,
}
use tassh.Daemon.{
  Daemon, Task, watch, claiming, probing, dialing, forwarding, cleaning, listing, scanning,
  liveness, receiving, Event, connect, disconnect, refresh, discovered, accepted, run, init, step,
  run_all, pick, perform, on_peer, create, handle_connect, handle_pid_exit, discover_section,
  discover_host, refresh_peer_liveness, accept_inbound,
}
use tassh.Prelude.{
  KeysDistinct, modify-KeysDistinct, or_insert-KeysDistinct, true, false, Option, Text, ◌<◌, ◌≡◌,
  All, Option-cases, some, inl, none, arith, inr, List, Bool, lookup, ℕ, [], ◌∷◌,
}

abbrev ValidAt : Option PeerState → Type 0
ValidAt none = Unit
ValidAt (some p) = IsValid p

-- Every known peer is valid, and no hostname stands twice.
pub record PeersValid (r : PeerRegistry) : Type 0 where
  pub keys : KeysDistinct r.peers
  pub at : (h : Text) (p : PeerState) → get h r ≡ some p → IsValid p

-- The PIDs of an event are `u32`s.
abbrev pub InRange : Event → Type 0
InRange (connect h pid) = pid < pid_mod
InRange (discovered h pids) = All (λ pid. pid < pid_mod) pids
InRange _ = Unit

get_mut-PeersValid :
    (h : Text) (f : PeerState → PeerState) (r : PeerRegistry)
    → ((p : PeerState) → IsValid p → IsValid (f p))
    → PeersValid r
    → PeersValid (get_mut h f r)
unfolding get_mut
get_mut-PeersValid h f r keep v = record {
  keys = modify-KeysDistinct h f r.peers v.keys;
  at = λ j p e. elim (Option-cases (get j r)) [
    | inl q ↦ ground (arith, get-get_mut h j f r)
    | inr (s, q) ↦ ground (arith, get-get_mut h j f r, keep s, v.at j s q)
  ];
}

pub get_or_create-PeersValid :
    (h : Text) (r : PeerRegistry) → PeersValid r → PeersValid (get_or_create h r)
unfolding get_or_create
get_or_create-PeersValid h r v = record {
  keys = or_insert-KeysDistinct h fresh r.peers v.keys;
  at = λ j p e. elim (Option-cases (get j r)) [
    | inl q ↦ ground (arith, get-get_or_create h j r, fresh-IsValid)
    | inr (s, q) ↦ ground (arith, get-get_or_create h j r, v.at j s q)
  ];
}

discover_section-IsValid :
    (pids : List ℕ)
    → All (λ pid. pid < pid_mod) pids
    → (p : PeerState) → IsValid p
    → IsValid (discover_section pids p).0
discover_section-IsValid pids h p v = claim-IsValid (track_pids-IsValid pids h v)

perform-PeersValid :
    (t : Task) (b : Bool) (d : Daemon) → PeersValid d.registry → PeersValid (perform t b d).registry
unfolding perform
perform-PeersValid (watch h pid) b d v = get_mut-PeersValid h _ _ (λ p. pid_exit-IsValid pid) v
perform-PeersValid (claiming h) b d v =
    get_mut-PeersValid h _ _ (λ p. claim-IsValid) (get_or_create-PeersValid h d.registry v)
perform-PeersValid (probing h) true d v = v
perform-PeersValid (probing h) false d v = get_mut-PeersValid h _ _ (λ p. probe_missed-IsValid) v
perform-PeersValid (dialing h) true d v =
    get_mut-PeersValid h _ _ (λ p. register-IsValid d.next_channel) v
perform-PeersValid (dialing h) false d v = get_mut-PeersValid h _ _ (λ p. dial_failed-IsValid) v
perform-PeersValid (forwarding h c) b d v =
    get_mut-PeersValid h _ _ (λ p. connection_ended-IsValid) v
perform-PeersValid (cleaning h) b d v = get_mut-PeersValid h _ _ (λ p. clean_idle-IsValid) v
perform-PeersValid (listing check) b d v = v
perform-PeersValid (scanning h check) b d v = v
perform-PeersValid (liveness h true) true d v = v
perform-PeersValid (liveness h false) true d v = get_mut-PeersValid h _ _ (λ p. revive-IsValid) v
perform-PeersValid (liveness h was) false d v =
    get_mut-PeersValid h _ _ (λ p. probe_lost-IsValid was) v
perform-PeersValid (receiving h) b d v = get_mut-PeersValid h _ _ (λ p. inbound_closed-IsValid) v

-- Whatever happens next, every peer stays valid.
pub step-PeersValid :
    (d : Daemon) (e : Event) → InRange e → PeersValid d.registry → PeersValid (step d e).registry
unfolding step handle_connect handle_pid_exit discover_host refresh_peer_liveness accept_inbound
    create on_peer
step-PeersValid d (connect h pid) u v =
    get_mut-PeersValid h _ _ (λ p. track_pid-IsValid pid u)
      (get_or_create-PeersValid h d.registry v)
step-PeersValid d (disconnect h pid) u v = get_mut-PeersValid h _ _ (λ p. pid_exit-IsValid pid) v
step-PeersValid d (refresh check) u v = v
step-PeersValid d (discovered h pids) u v =
    get_mut-PeersValid h _ _ (discover_section-IsValid pids u)
      (get_or_create-PeersValid h d.registry v)
step-PeersValid d (accepted h) u v =
    get_mut-PeersValid h _ _ (λ p. inbound_opened-IsValid) (get_or_create-PeersValid h d.registry v)
step-PeersValid d (run n b) u v = elim (Option-cases (pick n d.tasks)) [
  | inl q ↦ rw (q, step) v
  | inr ((t, rest), q) ↦ rw (q, step) (perform-PeersValid t b (record d { tasks = rest }) v)
]

-- Every history whose PIDs are `u32`s keeps the registry valid: its hostnames are distinct, and each
-- peer is valid as `IsValid` says.
pub run_all-PeersValid :
    (d : Daemon) (es : List Event)
    → All InRange es
    → PeersValid d.registry
    → PeersValid (run_all d es).registry
unfolding run_all
run_all-PeersValid d [] u v = v
run_all-PeersValid d (e ∷ es) (u, us) v =
    run_all-PeersValid (step d e) es us (step-PeersValid d e u v)

-- A new daemon knows no peer.
pub init-PeersValid : PeersValid init.registry
unfolding get lookup
init-PeersValid = record { keys = tt; at = λ h p e. cc }
