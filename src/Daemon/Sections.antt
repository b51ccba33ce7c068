-- ===== src/Daemon/Sections.antt =====
-- The critical sections of src/daemon.rs on one peer. Where the block computes a flag, the section
-- returns it beside the state.
use tassh.Peer.{PeerState, usize_add}
use tassh.Prelude.{ℕ, List, Bool, true, ◌-◌, false, none, if◌then◌else◌, ◌∷◌, ◌==◌, ◌||◌, [], some}

-- HashSet<u32>
unfoldable pub contains : List ℕ → ℕ → Bool
contains [] a = false
contains (x ∷ xs) a = x == a || contains xs a

unfoldable pub remove_pid : ℕ → List ℕ → List ℕ
remove_pid a [] = []
remove_pid a (x ∷ xs) = if x == a then xs else x ∷ remove_pid a xs

-- handle_connect, first section: true if the PID is new. A PID that is watched is ignored.
unfoldable pub track_pid : ℕ → PeerState → PeerState × Bool
unfolding contains
track_pid pid p = if contains p.watched_pids pid then (p, false) else (
  record p { session_count = usize_add p.session_count 1; watched_pids = pid ∷ p.watched_pids },
  true,
)

-- handle_connect, second section, and the end of the section of discover_existing_ssh_sessions:
-- true if the caller is to probe and connect.
unfoldable pub claim : PeerState → PeerState × Bool
claim p = if p.connecting || p.connected then (p, false) else (record p { connecting = true }, true)

-- A probe that found no daemon, in handle_connect and in discover_existing_ssh_sessions.
unfoldable pub probe_missed : PeerState → PeerState
probe_missed p = record p { probe_failed = true; connecting = false }

-- handle_pid_exit. Dropping `close_tx` closes the connection.
unfoldable pub pid_exit : ℕ → PeerState → PeerState
unfolding remove_pid
pid_exit pid p =
    let left = record p {
      watched_pids = remove_pid pid p.watched_pids;
      session_count = p.session_count - 1;
    } in
    if left.session_count == 0
    then record left { close_tx = none; connected = false; pid_watcher_handles = [] }
    else left

-- start_peer_connection, once the TCP connection is there: true if the connection is kept.
unfoldable pub register : ℕ → PeerState → PeerState × Bool
register close_tx p =
    if p.session_count == 0 then (record p { connecting = false; close_tx = none }, false) else (
      record p {
        connected = true;
        connecting = false;
        probe_failed = false;
        close_tx = some close_tx;
      },
      true,
    )

-- start_peer_connection, when the TCP connection failed.
unfoldable pub dial_failed : PeerState → PeerState
dial_failed p = record p { connecting = false }

-- The end of a connection task of start_peer_connection.
unfoldable pub connection_ended : PeerState → PeerState
connection_ended p = record p { connected = false; connecting = false; close_tx = none }

-- refresh_peer_liveness: a connected peer without sessions.
unfoldable pub clean_idle : PeerState → PeerState
clean_idle p = record p { close_tx = none; connected = false; connecting = false }

-- refresh_peer_liveness: the remote daemon answers, and was not connected when it was asked.
unfoldable pub revive : PeerState → PeerState × Bool
revive p =
    if p.connected || p.connecting || p.session_count == 0
    then (p, false)
    else (record p { connecting = true; probe_failed = false }, true)

-- refresh_peer_liveness: no answer. `was_connected` is what was read before the probe.
unfoldable pub probe_lost : Bool → PeerState → PeerState
probe_lost was_connected p =
    let closed = if was_connected then record p { close_tx = none; connected = false } else p in
    record closed { connecting = false; probe_failed = true }

-- run_tcp_server: a connection of the peer is accepted, and ends.
unfoldable pub inbound_opened : PeerState → PeerState
inbound_opened p = record p {
  inbound_connections = usize_add p.inbound_connections 1;
  probe_failed = false;
}

unfoldable pub inbound_closed : PeerState → PeerState
inbound_closed p = record p { inbound_connections = p.inbound_connections - 1 }

-- discover_existing_ssh_sessions: the loop over the PIDs of one host, with the PIDs that are new.
unfoldable pub track_pids : List ℕ → PeerState → PeerState × List ℕ
unfolding track_pid
track_pids [] p = (p, [])
track_pids (pid ∷ pids) p =
    let (q, added) = track_pid pid p in
    let (last, new_pids) = track_pids pids q in (last, if added then pid ∷ new_pids else new_pids)
