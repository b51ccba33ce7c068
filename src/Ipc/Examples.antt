-- ===== src/Ipc/Examples.antt =====
-- What the commands bring about in a daemon.
use tassh.Peer.{list_peers, get}
use tassh.Daemon.{refresh, connect, Event, init, run_all}
use tassh.Status.{run_status}
use tassh.Ipc.Answer.{response, respond, query_status}
use tassh.Ipc.Shown.{status_shown}
use tassh.Ipc.Cells.{in_cells}
use tassh.Prelude.{
  ◌++◌, some, lookup, length, ◌≤◌, List, All, codes, ◌∷◌, ◌≡◌, [], false, arith, true, refl,
}
use tassh.Ipc.Tagged.{tagged}
use tassh.Ipc.{handle_ipc_connection, send_notify, status_request}
use tassh.Daemon.Sections.{contains}
use tassh.Daemon.Log.{watched_at}
use tassh.Daemon.Channels.{connected_at}
use tassh.Daemon.Recovery.{IsHelpful}
use tassh.Ipc.Notify.{applied, notify_connects}

not_watched : contains (watched_at (get (codes "box") (run_all init []).registry)) 81 ≡ false
unfolding run_all get lookup contains
not_watched = refl

-- A notification to a new daemon.
notify_connects_example :
    let d =
      applied
        (handle_ipc_connection tagged (send_notify tagged (codes "box") 22 81))
        (run_all init []) in
    (more : List Event) × All IsHelpful more
    × (length more ≤ 5)
    × (connected_at (get (codes "box") (run_all d more).registry) ≡ true)
notify_connects_example =
    notify_connects tagged [] (codes "box") 22 81 (omega arith) (omega arith) tt not_watched

-- A daemon with a session.
status_shown_example :
    let es = connect (codes "box") 81 ∷ [] in
    let (after, s) =
      respond in_cells
        (handle_ipc_connection tagged (status_request tagged))
        []
        (run_all init es) in
    (after ≡ run_all init (es ++ refresh true ∷ []))
    × (query_status in_cells (response s) ≡ some (run_status (some (list_peers after.registry))))
status_shown_example = status_shown tagged in_cells (connect (codes "box") 81 ∷ []) []
