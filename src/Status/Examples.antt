-- ===== src/Status/Examples.antt =====
-- The status of a daemon with one connected host.
use tassh.Peer.{PeerInfo, get, get_mut, get_or_create, list_peers, peer_info}
use tassh.Peer.Listing.{info_at}
use tassh.Daemon.Sections.{track_pid, claim, register}
use tassh.Daemon.{Event, connect, run, init, run_all, step, perform, handle_connect}
use tassh.Daemon.Tasks.{count}
use tassh.Daemon.Sessions.{watches}
use tassh.Daemon.Inbound.{receives}
use tassh.Daemon.Channels.{close_tx_at, forwards}
use tassh.Status.{run_status, status_of}
use tassh.Status.Report.{shown_sessions, status_exact, syncing_served}
use tassh.Prelude.{
  ℕ, Text, List, true, some, lookup, ◌≡◌, codes, ◌∷◌, false, modify, ◌+◌, ◌<◌, [], or_insert, arith,
  ◌⊎◌, text_eq, refl, ◌↔◌, none,
}

abbrev box : Text
box = codes "box"

abbrev history : List Event
history = connect box 1 ∷ run 1 true ∷ run 0 true ∷ run 0 true ∷ []

abbrev box_info : PeerInfo
box_info = record { hostname = box; connected = true; no_daemon = false; session_count = 1 }

box_printed :
    run_status (some (box_info ∷ record box_info { session_count = 12; connected = false } ∷ []))
    ≡ codes "Peers:"
      ∷ codes "  box -- syncing (1 SSH session)"
      ∷ codes "  box -- probing (12 SSH sessions)"
      ∷ []
unfolding run_status
box_printed = refl

box_listed : info_at box (list_peers (run_all init history).registry) ≡ some box_info
unfolding run_all step handle_connect perform claim register track_pid get get_mut get_or_create
    lookup modify or_insert text_eq list_peers peer_info
box_listed = refl

status_exact_example :
    let d = run_all init history in
    let n = count (watches box) d.tasks + count (receives box) d.tasks in
    (shown_sessions (info_at box (list_peers d.registry)) ≡ n)
    × ((info_at box (list_peers d.registry) ≡ none) ↔ (n ≡ 0))
status_exact_example = status_exact history box (omega arith) (omega arith)

syncing_served_example :
    ((c : ℕ) × (close_tx_at (get box (run_all init history).registry) ≡ some c)
      × (0 < count (forwards box c) (run_all init history).tasks))
    ⊎ (0 < count (receives box) (run_all init history).tasks)
unfolding status_of
syncing_served_example =
    syncing_served history box box_info (omega arith) (omega arith) box_listed refl
