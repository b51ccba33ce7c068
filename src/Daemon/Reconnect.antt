-- ===== src/Daemon/Reconnect.antt =====
-- A host with a session that is not connected: the next tick of the refresh of src/daemon.rs brings it
-- back.
use tassh.Peer.{
  PeerState, get, get-get_mut, keys_where, hosts_with_sessions, connected_hosts_without_sessions,
}
use tassh.Daemon.Sections.{revive}
use tassh.Daemon.{
  Daemon, Task, watch, claiming, probing, dialing, forwarding, cleaning, listing, scanning,
  liveness, receiving, Event, refresh, run, init, step, run_all, pick, perform, spawn_all,
  refresh_peer_liveness,
}
use tassh.Daemon.Tasks.{count}
use tassh.Daemon.Attempts.{attempts, connecting_attempted}
use tassh.Prelude.{
  ℕ, Text, Bool, List, All, Bool-cases, ◌≡◌, ◌≤◌, ◌<◌, some, true, false, [], ◌∷◌, length, arith,
  refl, text_eq, text_eq_iff, text_eq_refl, lookup, HashMap, inl, inr, ltb,
}
use tassh.Daemon.Channels.{connected_at}
use tassh.Daemon.Recovery.{
  IsHelpful, count-pick_some, count-spawn_all_keeps, Recovers, Recovers-le, recovered,
  Recovers-step, Recovers-run, Recovers-dialing, Recovers-attempt,
}

-- Every event is allowed.
abbrev Free : Daemon → Event → Type 0
Free d e = Unit

abbrev pub lists : Task → Bool
lists (listing check) = true
lists _ = false

abbrev pub scans : Text → Task → Bool
scans h (scanning j check) = text_eq j h
scans h _ = false

-- Each host with sessions is scanned.
count-scanning :
    (h : Text) (check : Bool) (q : PeerState → Bool) (m : HashMap PeerState) (ts : List Task)
    (p : PeerState)
    → lookup h m ≡ some p
    → q p ≡ true
    → 0 < count (scans h) (spawn_all (λ j. scanning j check) (keys_where q m) ts)
unfolding keys_where lookup
count-scanning h check q [] ts p e hq = cc
count-scanning h check q ((k, s) ∷ m) ts p e hq = elim (Bool-cases (text_eq k h)) [
  | inl same ↦ ground (arith, e, hq, same)
  | inr other ↦ ground (arith, other, count-scanning h check q m ts p (ground (arith, e, other)) hq)
]

-- A host that waits for an attempt to connect.
pub record IsWaiting (d : Daemon) (h : Text) (p : PeerState) : Type 0 where
  pub here : get h d.registry ≡ some p
  pub open' : 0 < p.session_count
  pub apart : p.connected ≡ false
  pub free : p.connecting ≡ false

abbrev revived : PeerState → PeerState
revived p = record p { connecting = true; probe_failed = false }

liveness-revived :
    (d : Daemon) (h : Text) (p : PeerState)
    → IsWaiting d h p
    → let e = perform (liveness h false) true d in
      (get h e.registry ≡ some (revived p)) × (e.tasks ≡ dialing h ∷ d.tasks)
unfolding perform revive
liveness-revived d h p w = ground (
  arith,
  get-get_mut h h (λ q. (revive q).0) d.registry,
  text_eq_refl h,
  w.here,
  w.open',
  w.apart,
  w.free,
)

pub Recovers-liveness :
    (Q : Daemon → Event → Type 0) (k : ℕ) (d : Daemon) (h : Text) (p : PeerState) (rest : List Task)
    → IsWaiting d h p
    → pick k d.tasks ≡ some (liveness h false, rest)
    → Q d (run k true)
    → ((e : Daemon) (left : List Task) → e.tasks ≡ dialing h ∷ left → Q e (run 0 true))
    → Recovers Q 2 d h
Recovers-liveness Q k d h p rest w q o next =
    let b = record d { tasks = rest } in
    let (here, spawned) =
      liveness-revived b h p
        (record { here = w.here; open' = w.open'; apart = w.apart; free = w.free }) in
    Recovers-run Q k 1 d h (liveness h false) rest q o (
      Recovers-dialing Q 0 _ h h (revived p) rest here w.open' refl (rw spawned)
        (next _ rest spawned))

scanning-liveness :
    (d : Daemon) (h j : Text) (c : Bool) (p : PeerState)
    → IsWaiting d h p
    → j ≡ h
    → (perform (scanning j c) true d).tasks ≡ liveness h false ∷ d.tasks
unfolding perform
scanning-liveness d h j c p w same = rw same (ground (arith, w.here, w.apart, w.free))

Recovers-scanning :
    (k : ℕ) (t : Task) (d : Daemon) (h : Text) (p : PeerState) (rest : List Task)
    → IsWaiting d h p
    → scans h t ≡ true
    → pick k d.tasks ≡ some (t, rest)
    → Recovers Free 3 d h
unfolding perform
Recovers-scanning k (scanning j c) d h p rest w a q =
    let b = record d { tasks = rest } in
    let v : IsWaiting b h p = record {
      here = w.here;
      open' = w.open';
      apart = w.apart;
      free = w.free;
    } in
    Recovers-run Free k 2 d h (scanning j c) rest q tt (
      Recovers-liveness Free 0 _ h p rest
        (record { here = w.here; open' = w.open'; apart = w.apart; free = w.free })
        (rw (scanning-liveness b h j c p v ((text_eq_iff j h).0 a))) tt (λ e left x. tt))
Recovers-scanning k (watch j pid) d h p rest w a q = cc
Recovers-scanning k (claiming j) d h p rest w a q = cc
Recovers-scanning k (probing j) d h p rest w a q = cc
Recovers-scanning k (dialing j) d h p rest w a q = cc
Recovers-scanning k (forwarding j c) d h p rest w a q = cc
Recovers-scanning k (cleaning j) d h p rest w a q = cc
Recovers-scanning k (listing c) d h p rest w a q = cc
Recovers-scanning k (liveness j c) d h p rest w a q = cc
Recovers-scanning k (receiving j) d h p rest w a q = cc

pub listing-scanning :
    (d : Daemon) (h : Text) (c : Bool) (p : PeerState)
    → IsWaiting d h p
    → 0 < count (scans h) (perform (listing c) true d).tasks
unfolding perform hosts_with_sessions get
listing-scanning d h c p w =
    count-scanning h c (λ s. ltb 0 s.session_count) d.registry.peers d.tasks p w.here
      (ground (arith, w.open'))

Recovers-listing :
    (k : ℕ) (t : Task) (d : Daemon) (h : Text) (p : PeerState) (rest : List Task)
    → IsWaiting d h p
    → lists t ≡ true
    → pick k d.tasks ≡ some (t, rest)
    → Recovers Free 4 d h
unfolding perform
Recovers-listing k (listing c) d h p rest w a q =
    let b = record d { tasks = rest } in
    let v : IsWaiting b h p = record {
      here = w.here;
      open' = w.open';
      apart = w.apart;
      free = w.free;
    } in
    let (n, t, left, found, scanned) =
      count-pick_some (scans h) (perform (listing c) true b).tasks (listing-scanning b h c p v) in
    Recovers-run Free k 3 d h (listing c) rest q tt (
      Recovers-scanning n t _ h p left
        (record { here = w.here; open' = w.open'; apart = w.apart; free = w.free }) scanned found)
Recovers-listing k (watch j pid) d h p rest w a q = cc
Recovers-listing k (claiming j) d h p rest w a q = cc
Recovers-listing k (probing j) d h p rest w a q = cc
Recovers-listing k (dialing j) d h p rest w a q = cc
Recovers-listing k (forwarding j c) d h p rest w a q = cc
Recovers-listing k (cleaning j) d h p rest w a q = cc
Recovers-listing k (scanning j c) d h p rest w a q = cc
Recovers-listing k (liveness j c) d h p rest w a q = cc
Recovers-listing k (receiving j) d h p rest w a q = cc

-- A tick of the refresh, with what it spawns.
Recovers-refresh : (d : Daemon) (h : Text) (p : PeerState) → IsWaiting d h p → Recovers Free 5 d h
unfolding step
Recovers-refresh d h p w =
    let hosts = connected_hosts_without_sessions d.registry in
    let (n, t, left, found, listed) = count-pick_some lists (step d (refresh false)).tasks (
      unfold refresh_peer_liveness in
      omega (arith, count-spawn_all_keeps lists cleaning hosts (listing false ∷ d.tasks))) in
    Recovers-step Free 4 d h (refresh false) tt tt (
      Recovers-listing n t _ h p left
        (unfold refresh_peer_liveness in
          record { here = w.here; open' = w.open'; apart = w.apart; free = w.free })
        listed found)

-- After any history of a new daemon, a host with an open session is connected, or is after at most five
-- further events: a tick of the refresh and sections of tasks whose probe and connection are
-- successful. Here the hosts of a refresh are visited in any order.
pub session_recovers :
    (es : List Event) (h : Text) (p : PeerState)
    → get h (run_all init es).registry ≡ some p
    → 0 < p.session_count
    → (more : List Event) × All IsHelpful more
      × (length more ≤ 5)
      × (connected_at (get h (run_all (run_all init es) more).registry) ≡ true)
session_recovers es h p e s =
    let d = run_all init es in
    let r : Recovers Free 5 d h = elim (Bool-cases p.connected) [
      | inl c ↦ recovered Free 5 d h (rw e c)
      | inr c ↦ elim (Bool-cases p.connecting) [
        | inl busy ↦
            let (n, t, rest, found, attempt) =
              count-pick_some (attempts h) d.tasks (connecting_attempted es h (rw e busy)) in
            Recovers-le Free 2 5 d h (omega arith)
              (Recovers-attempt Free n t d h p rest e s attempt (λ a k t x y z. tt) found)
        | inr free ↦ Recovers-refresh d h p (record { here = e; open' = s; apart = c; free = free })
      ]
    ] in
    (r.more, r.helpful, r.bounded, r.connects)
