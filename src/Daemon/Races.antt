-- ===== src/Daemon/Races.antt =====
-- Orders of events in which src/daemon.rs ends a connection that is still wanted.
use tassh.Peer.{PeerState, get, get-get_mut}
use tassh.Daemon.Sections.{pid_exit, connection_ended, probe_lost, contains, remove_pid}
use tassh.Daemon.{Daemon, Task, forwarding, liveness, run, step, pick, perform, on_peer, probed}
use tassh.Daemon.Tasks.{count, count-pick}
use tassh.Daemon.Valid.{IsValid, length-remove_pid, contains-remove_pid_self}
use tassh.Daemon.Channels.{forwards, close_tx_at, connected_at}
use tassh.Daemon.Attempts.{attempts, connecting_at}
use tassh.Prelude.{
  ℕ, true, false, ◌≡◌, Text, ◌<◌, Bool, length, List, arith, some, ◌≢◌, text_eq_refl, none,
}

-- A Disconnect message for a watched process and then the exit of that process count as two
-- sessions: of a peer with two sessions none is left, and it is disconnected, although another
-- process is still watched.
disconnect_counts_twice :
    (p : PeerState) (pid : ℕ)
    → IsValid p
    → contains p.watched_pids pid ≡ true
    → p.session_count ≡ 2
    → let q = pid_exit pid (pid_exit pid p) in
      (q.session_count ≡ 0) × (q.connected ≡ false) × (0 < length q.watched_pids)
unfolding pid_exit
disconnect_counts_twice p pid v h n = ground (
  arith,
  length-remove_pid pid p.watched_pids,
  length-remove_pid pid (remove_pid pid p.watched_pids),
  contains-remove_pid_self pid p.watched_pids v.distinct,
)

-- A connection task that ends clears the peer whichever connection the peer holds: if the peer has
-- meanwhile got another connection, that one loses its close channel, which closes it, and the peer
-- counts as disconnected although its task is in flight.
stale_end_disconnects :
    (d : Daemon) (h : Text) (n c stale : ℕ) (b : Bool) (rest : List Task)
    → pick n d.tasks ≡ some (forwarding h stale, rest)
    → close_tx_at (get h d.registry) ≡ some c
    → c ≢ stale
    → 0 < count (forwards h c) d.tasks
    → let e = step d (run n b) in
      (close_tx_at (get h e.registry) ≡ none)
      × (connected_at (get h e.registry) ≡ false)
      × (0 < count (forwards h c) e.tasks)
unfolding step perform on_peer connection_ended
stale_end_disconnects d h n c stale b rest q held ne live = ground (
  arith,
  get-get_mut h h connection_ended d.registry,
  text_eq_refl h,
  count-pick (forwards h c) n d.tasks (forwarding h stale) rest q,
)

-- A failed liveness probe that was started before the flag was set clears the `connecting` flag of
-- an attempt that is in flight, so that a second attempt can be claimed.
stale_probe_clears_connecting :
    (d : Daemon) (h : Text) (n : ℕ) (was : Bool) (rest : List Task)
    → pick n d.tasks ≡ some (liveness h was, rest)
    → 0 < count (attempts h) d.tasks
    → let e = step d (run n false) in
      (connecting_at (get h e.registry) ≡ false) × (0 < count (attempts h) e.tasks)
unfolding step perform on_peer probed probe_lost
stale_probe_clears_connecting d h n was rest q live = ground (
  arith,
  get-get_mut h h (probe_lost was) d.registry,
  text_eq_refl h,
  count-pick (attempts h) n d.tasks (liveness h was) rest q,
)
