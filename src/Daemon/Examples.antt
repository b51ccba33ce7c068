-- ===== src/Daemon/Examples.antt =====
-- The theorems about src/daemon.rs at histories of one host.
use tassh.Peer.{
  PeerState, fresh, get, get_mut, get_or_create, connected_hosts_without_sessions,
  hosts_with_sessions,
}
use tassh.Daemon.Sections.{contains, track_pid, claim, register, probe_missed}
use tassh.Daemon.Valid.{IsValid}
use tassh.Daemon.{
  handle_connect, Daemon, Event, watch, liveness, probing, listing, connect, refresh, run, init,
  step, run_all, perform, accepted,
}
use tassh.Daemon.InOrder.{refreshes, IsInOrder}
use tassh.Daemon.Ticks.{session_reconnects}
use tassh.Daemon.Recovery.{IsHelpful, Along}
use tassh.Daemon.Tasks.{count}
use tassh.Daemon.Invariant.{PeersValid, init-PeersValid, run_all-PeersValid}
use tassh.Daemon.Channels.{forwards, close_tx_at, connected_at}
use tassh.Daemon.Sessions.{watches, sessions_at, session_count_exact, session_count_bounded}
use tassh.Daemon.Idle.{refresh_cleans_nothing}
use tassh.Daemon.Log.{watched_at, is_open, log_of}
use tassh.Daemon.Watched.{run_all_refines}
use tassh.Daemon.Inbound.{inbound_at, receives, inbound_connections_exact}
use tassh.Daemon.Phases.{dialed, allowed, cause, phase_at}
use tassh.Daemon.Phases.Machine.{step_follows_machine}
use tassh.Daemon.Unique.{uses, connected_served_once}
use tassh.Prelude.{
  ◌≤◌, All, length, ◌+◌, ◌^◌, ◌≤◌, ℕ, refl, true, false, codes, Text, List, ◌≡◌, lookup, arith, ◌∷◌,
  text_eq, [], modify, some, or_insert,
}

abbrev box : Text
box = codes "box"

-- A session starts, the peer is claimed and probed; then its connection comes about.
abbrev connected : List Event
connected = connect box 1 ∷ run 1 true ∷ run 0 true ∷ run 0 true ∷ []

-- The session ends, and another starts and is connected, before the first connection has ended.
abbrev reconnected : List Event
reconnected =
    connect box 1
    ∷ run 1 true
    ∷ run 0 true
    ∷ run 0 true
    ∷ run 1 true
    ∷ connect box 2
    ∷ run 1 true
    ∷ run 0 true
    ∷ run 0 true
    ∷ []

session_count_exact_example :
    sessions_at (get box (run_all init connected).registry)
    ≡ count (watches box) (run_all init connected).tasks
session_count_exact_example = session_count_exact connected box (omega arith)

is_connected : connected_at (get box (run_all init connected).registry) ≡ true
unfolding run_all step handle_connect perform claim register track_pid get get_mut get_or_create
    lookup modify or_insert text_eq
is_connected = refl

connected_served_once_example :
    (c : ℕ) × (close_tx_at (get box (run_all init connected).registry) ≡ some c)
    × (count (forwards box c) (run_all init connected).tasks ≡ 1)
    × (count (uses c) (run_all init connected).tasks ≡ 1)
connected_served_once_example = connected_served_once connected box (omega arith) is_connected

run_all-PeersValid_example : PeersValid (run_all init connected).registry
run_all-PeersValid_example = run_all-PeersValid init connected (omega arith) init-PeersValid

refresh_cleans_nothing_example :
    (connected_hosts_without_sessions (run_all init connected).registry ≡ [])
    × ((step (run_all init connected) (refresh true)).tasks
        ≡ listing true ∷ (run_all init connected).tasks)
refresh_cleans_nothing_example = refresh_cleans_nothing connected true (omega arith)

abbrev two_sessions : PeerState
two_sessions = record fresh {
  session_count = 2;
  connected = true;
  watched_pids = 8 ∷ 9 ∷ [];
  close_tx = some 0;
}

two_sessions-IsValid : IsValid two_sessions
unfolding contains
two_sessions-IsValid = ground arith

abbrev probed_late : Daemon
probed_late = record {
  registry = record {
    peers =
        (box, record fresh { session_count = 1; connecting = true; watched_pids = 1 ∷ [] }) ∷ [];
  };
  tasks = probing box ∷ liveness box false ∷ watch box 1 ∷ [];
  next_channel = 0;
}

run_all_refines_example :
    contains (watched_at (get box (run_all init connected).registry)) 1
    ≡ is_open (log_of init connected []) box 1
run_all_refines_example = run_all_refines connected box 1 (omega arith)

inbound_connections_exact_example :
    inbound_at (get box (run_all init (accepted box ∷ connected)).registry)
    ≡ count (receives box) (run_all init (accepted box ∷ connected)).tasks
inbound_connections_exact_example =
    inbound_connections_exact (accepted box ∷ connected) box (omega arith)

-- A session whose probe found no daemon.
abbrev missed : List Event
missed = connect box 1 ∷ run 1 true ∷ run 0 false ∷ []

abbrev missed_peer : PeerState
missed_peer = record fresh { session_count = 1; watched_pids = 1 ∷ []; probe_failed = true }

missed_at : get box (run_all init missed).registry ≡ some missed_peer
unfolding run_all step handle_connect perform claim track_pid get get_mut get_or_create lookup
    modify or_insert text_eq probe_missed
missed_at = refl

missed_idle : count refreshes (run_all init missed).tasks ≡ 0
unfolding run_all step handle_connect perform claim track_pid get get_mut get_or_create lookup
    modify or_insert text_eq probe_missed
missed_idle = refl

-- The probe found a daemon, and the attempt to connect is the only task beside the watch.
abbrev found : List Event
found = connect box 1 ∷ run 1 true ∷ run 0 true ∷ []

step_follows_machine_example :
    let d = run_all init found in
    allowed
      (cause box d (run 0 true))
      (phase_at (get box d.registry))
      (phase_at (get box (step d (run 0 true)).registry))
    ≡ true
step_follows_machine_example = step_follows_machine found (run 0 true) box (omega arith)

dialing_next : cause box (run_all init found) (run 0 true) ≡ dialed
unfolding run_all step handle_connect perform claim track_pid get get_mut get_or_create lookup
    modify or_insert text_eq
dialing_next = refl

session_count_bounded_example : sessions_at (get box (run_all init connected).registry) ≤ 2 ^ 32
session_count_bounded_example = session_count_bounded connected box (omega arith)

session_reconnects_example :
    let d = run_all init missed in
    (more : List Event) × All IsHelpful more
    × Along IsInOrder d more
    × (length more ≤ length (hosts_with_sessions d.registry) + 4)
    × (connected_at (get box (run_all d more).registry) ≡ true)
session_reconnects_example =
    session_reconnects missed box missed_peer (omega arith) missed_idle missed_at (omega arith)
