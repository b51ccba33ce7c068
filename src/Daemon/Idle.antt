-- ===== src/Daemon/Idle.antt =====
-- The first loop of `refresh_peer_liveness` in src/daemon.rs, over connected peers without sessions.
use tassh.Peer.{connected_hosts_without_sessions, get}
use tassh.Peer.Listing.{keys_where-eq-nil}
use tassh.Daemon.{Daemon, Event, init, run_all, step, refresh, refresh_peer_liveness, listing}
use tassh.Daemon.Invariant.{PeersValid, InRange, init-PeersValid, run_all-PeersValid}
use tassh.Prelude.{Bool, ◌≡◌, List, [], All, ◌&&◌, ◌∷◌, ◌==◌, arith}

no_idle : (d : Daemon) → PeersValid d.registry → connected_hosts_without_sessions d.registry ≡ []
unfolding connected_hosts_without_sessions get
no_idle d v =
    keys_where-eq-nil (λ s. s.connected && s.session_count == 0) d.registry.peers v.keys
      (λ h s e. ground (arith, v.at h s e))

-- After any history of a new daemon whose PIDs are `u32`s, a refresh finds no connected host without
-- sessions: it cleans nothing, and goes on to list the hosts with sessions.
pub refresh_cleans_nothing :
    (es : List Event) (check : Bool)
    → All InRange es
    → let d = run_all init es in
      (connected_hosts_without_sessions d.registry ≡ [])
      × ((step d (refresh check)).tasks ≡ listing check ∷ d.tasks)
unfolding step refresh_peer_liveness
refresh_cleans_nothing es check u =
    let e = no_idle (run_all init es) (run_all-PeersValid init es u init-PeersValid) in (e, rw e)
