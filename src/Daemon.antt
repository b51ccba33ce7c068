-- ===== src/Daemon.antt =====
-- src/daemon.rs: peer management. The registry is behind one mutex; each critical section is one
-- function of `Sections`, and a spawned task, or a handler between two sections, is an entry of
-- `tasks` that waits for its next section. Sections of different tasks interleave in any order.
pub mod Sections
pub mod Valid
pub mod Invariant
pub mod Tasks
pub mod Attempts
pub mod Channels
pub mod Sessions
pub mod Races
pub mod Idle
pub mod Inbound
pub mod Log
pub mod Watched
pub mod Recovery
pub mod Reconnect
pub mod InOrder
pub mod Ticks
pub mod Phases
pub mod Unique
pub mod Discovered
pub mod Hosts
mod Examples
use tassh.Peer.{
  PeerState, PeerRegistry, new, get_or_create, get, get_mut, hosts_with_sessions,
  connected_hosts_without_sessions,
}
use tassh.Daemon.Sections.{
  track_pid, claim, probe_missed, pid_exit, register, dial_failed, connection_ended, clean_idle,
  revive, probe_lost, inbound_opened, inbound_closed, track_pids,
}
use tassh.Prelude.{
  ℕ, Text, List, [], Option, Bool, ◌∷◌, map_option, some, if◌then◌else◌, none, not, suc, ◌&&◌, true,
  false, zero,
}

pub data Task : Type 0 where
  -- watch_pid, then handle_pid_exit
  watch : Text → ℕ → Task
  -- handle_connect between its two sections
  claiming : Text → Task
  -- probe_remote, then start_peer_connection if it succeeds
  probing : Text → Task
  -- start_peer_connection, waiting for TcpStream::connect
  dialing : Text → Task
  -- the loop of a connection, with the number of its close channel
  forwarding : Text → ℕ → Task
  -- refresh_peer_liveness: an idle host to clean, the second snapshot, a host to look at, a probe
  cleaning : Text → Task
  listing : Bool → Task
  scanning : Text → Bool → Task
  liveness : Text → Bool → Task
  -- the receive loop of an accepted connection
  receiving : Text → Task

pub record Daemon : Type 0 where
  pub registry : PeerRegistry
  pub tasks : List Task
  pub next_channel : ℕ

abbrev pub init : Daemon
init = record { registry = new; tasks = []; next_channel = 0 }

abbrev pub spawn_all {ℓ} : {A : Type ℓ} → (A → Task) → List A → List Task → List Task
spawn_all f [] ts = ts
spawn_all f (a ∷ as') ts = f a ∷ spawn_all f as' ts

-- A section on a known peer, `None => nothing`.
on_peer : Text → (PeerState → PeerState) → Daemon → Daemon
unfolding get_mut
on_peer h f d = record d { registry = get_mut h f d.registry }

-- A section that returns a flag, and the task that is spawned if it is set.
abbrev flagged : Option (PeerState × Bool) → Task → List Task → List Task
flagged none t ts = ts
flagged (some (p, b)) t ts = if b then t ∷ ts else ts

on_peer_then : Text → (PeerState → PeerState × Bool) → Task → Daemon → Daemon
on_peer_then h f t d = record d {
  registry = get_mut h (λ p. (f p).0) d.registry;
  tasks = flagged (map_option f (get h d.registry)) t d.tasks;
}

create : Text → Daemon → Daemon
unfolding get_or_create
create h d = record d { registry = get_or_create h d.registry }

-- handle_connect, up to its second section. A new PID is watched, and a peer that is not connected
-- is to be claimed.
abbrev connect_tasks : Text → ℕ → Option (PeerState × Bool) → List Task → List Task
connect_tasks h pid none ts = ts
connect_tasks h pid (some (p, added)) ts =
    if added then watch h pid ∷ (if not p.connected then claiming h ∷ ts else ts) else ts

unfoldable pub handle_connect : Text → ℕ → Daemon → Daemon
unfolding create
handle_connect h pid d =
    let e = create h d in
    record e {
      registry = get_mut h (λ p. (track_pid pid p).0) e.registry;
      tasks = connect_tasks h pid (map_option (track_pid pid) (get h e.registry)) e.tasks;
    }

pub handle_pid_exit : Text → ℕ → Daemon → Daemon
unfolding on_peer
handle_pid_exit h pid d = on_peer h (pid_exit pid) d

-- discover_existing_ssh_sessions, the section of one host.
abbrev discover_section : List ℕ → PeerState → PeerState × List ℕ × Bool
discover_section pids p =
    let (q, new_pids) = track_pids pids p in
    let (claimed, should_connect) = claim q in (claimed, new_pids, should_connect)

abbrev discover_tasks : Text → Option (PeerState × List ℕ × Bool) → List Task → List Task
discover_tasks h none ts = ts
discover_tasks h (some (p, new_pids, should_connect)) ts =
    spawn_all (watch h) new_pids (if should_connect then probing h ∷ ts else ts)

pub discover_host : Text → List ℕ → Daemon → Daemon
unfolding create
discover_host h pids d =
    let e = create h d in
    record e {
      registry = get_mut h (λ p. (discover_section pids p).0) e.registry;
      tasks = discover_tasks h (map_option (discover_section pids) (get h e.registry)) e.tasks;
    }

-- start_peer_connection, connected: a channel is made, and the connection task is spawned if the
-- peer keeps the connection.
start_connection : Text → Daemon → Daemon
unfolding on_peer_then
start_connection h d =
    let c = d.next_channel in
    let e = on_peer_then h (register c) (forwarding h c) d in record e { next_channel = suc c }

-- refresh_peer_liveness, the visit of one host: a probe is spawned with what was read.
abbrev scan_tasks : Text → Bool → Option PeerState → List Task → List Task
scan_tasks h check_connected none ts = ts
scan_tasks h check_connected (some p) ts =
    if p.connecting
    then ts
    else if p.connected && not check_connected
    then ts
    else liveness h p.connected ∷ ts

-- refresh_peer_liveness, the result of one probe.
probed : Text → Bool → Bool → Daemon → Daemon
unfolding on_peer on_peer_then
probed h was_connected true d = if was_connected then d else on_peer_then h revive (dialing h) d
probed h was_connected false d = on_peer h (probe_lost was_connected) d

-- refresh_peer_liveness, the first snapshot.
pub refresh_peer_liveness : Bool → Daemon → Daemon
refresh_peer_liveness check_connected d = record d {
  tasks =
      spawn_all cleaning (connected_hosts_without_sessions d.registry)
        (listing check_connected ∷ d.tasks);
}

-- run_tcp_server: a connection was accepted from a peer with this key.
pub accept_inbound : Text → Daemon → Daemon
unfolding create on_peer
accept_inbound h d =
    let e = on_peer h inbound_opened (create h d) in record e { tasks = receiving h ∷ e.tasks }

-- The next section of a task. The flag is what it waited for: the probe found a daemon, or the TCP
-- connection came about.
unfoldable pub perform : Task → Bool → Daemon → Daemon
unfolding create on_peer on_peer_then handle_pid_exit start_connection probed
perform (watch h pid) b d = handle_pid_exit h pid d
perform (claiming h) b d = on_peer_then h claim (probing h) (create h d)
perform (probing h) true d = record d { tasks = dialing h ∷ d.tasks }
perform (probing h) false d = on_peer h probe_missed d
perform (dialing h) true d = start_connection h d
perform (dialing h) false d = on_peer h dial_failed d
perform (forwarding h c) b d = on_peer h connection_ended d
perform (cleaning h) b d = on_peer h clean_idle d
perform (listing check) b d = record d {
  tasks = spawn_all (λ h. scanning h check) (hosts_with_sessions d.registry) d.tasks;
}
perform (scanning h check) b d = record d { tasks = scan_tasks h check (get h d.registry) d.tasks }
perform (liveness h was_connected) b d = probed h was_connected b d
perform (receiving h) b d = on_peer h inbound_closed d

-- What can happen next: a message on the Unix socket, a tick of the refresh, a host found at
-- startup, an accepted connection, or a section of the task at a position.
pub data Event : Type 0 where
  connect disconnect : Text → ℕ → Event
  refresh : Bool → Event
  discovered : Text → List ℕ → Event
  accepted : Text → Event
  run : ℕ → Bool → Event

abbrev pub pick : ℕ → List Task → Option (Task × List Task)
pick n [] = none
pick zero (t ∷ ts) = some (t, ts)
pick (suc n) (t ∷ ts) = elim (pick n ts) [ none ↦ none | some (u, rest) ↦ some (u, t ∷ rest) ]

unfoldable pub step : Daemon → Event → Daemon
step d (connect h pid) = handle_connect h pid d
step d (disconnect h pid) = handle_pid_exit h pid d
step d (refresh check) = refresh_peer_liveness check d
step d (discovered h pids) = discover_host h pids d
step d (accepted h) = accept_inbound h d
step d (run n b) = elim (pick n d.tasks) [
  | none ↦ d
  | some (t, rest) ↦ perform t b (record d { tasks = rest })
]

unfoldable pub run_all : Daemon → List Event → Daemon
run_all d [] = d
run_all d (e ∷ es) = run_all (step d e) es
