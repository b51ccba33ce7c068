-- ===== src/Peer/Examples.antt =====
-- The theorems about src/peer.rs at a registry of two peers.
use tassh.Peer.{
  PeerState, PeerRegistry, fresh, hosts_with_sessions, hostnames, list_peers, peer_info,
}
use tassh.Prelude.{true, codes, ◌∷◌, [], some, ◌≡◌, false, refl}

abbrev busy : PeerState
busy = record fresh {
  session_count = 2;
  connected = true;
  watched_pids = 8 ∷ 9 ∷ [];
  close_tx = some 0;
}

abbrev two_peers : PeerRegistry
two_peers = record { peers = (codes "a", busy) ∷ (codes "b", fresh) ∷ [] }

peers_listed :
    (hosts_with_sessions two_peers ≡ codes "a" ∷ [])
    × (hostnames two_peers ≡ codes "a" ∷ codes "b" ∷ [])
    × (list_peers two_peers
        ≡ record { hostname = codes "a"; connected = true; no_daemon = false; session_count = 2 }
          ∷ [])
unfolding hosts_with_sessions hostnames list_peers peer_info
peers_listed = (refl, refl, refl)
