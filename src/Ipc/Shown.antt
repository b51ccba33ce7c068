-- ===== src/Ipc/Shown.antt =====
-- From `tassh status` of src/main.rs to the daemon of src/daemon.rs and back.
use tassh.Peer.{list_peers}
use tassh.Peer.Listing.{list_peers-bounded}
use tassh.Daemon.{Daemon, Event, init, refresh, run_all, step}
use tassh.Status.{run_status}
use tassh.Ipc.{Json, handle_ipc_connection, status_request}
use tassh.Ipc.Answer.{
  ResponseJson, response, write_response, respond, query_status, unwrap_or_default,
}
use tassh.Ipc.Delivery.{commands_delivered, first_line_whole}
use tassh.Ipc.Notify.{run_all-append}
use tassh.Prelude.{List, ◌≡◌, some, [], ◌∷◌, ◌++◌, arith, sym, true}

module _ (J : Json) (R : ResponseJson) where
  open R use {to_string, from_str, reads_back}

  -- A listing that is written is read back by the command.
  response_read :
      (d : Daemon)
      → query_status R
          (response (write_response (unwrap_or_default (to_string (list_peers d.registry)))))
        ≡ some (run_status (some (list_peers d.registry)))
  unfolding query_status
  response_read d =
      let (s, written, one_line, read) =
        reads_back (list_peers d.registry) (list_peers-bounded d.registry) in
      ground (arith, written, first_line_whole s one_line, read)

  -- At any point of the history of a daemon, and whatever its other tasks do between the refresh and the
  -- listing: `tassh status` does not fail, and prints the report of the peers that the registry has at the
  -- listing, behind the history with the refresh, which probes the connected peers too.
  pub status_shown :
      (es meanwhile : List Event)
      → let (after, s) =
          respond R (handle_ipc_connection J (status_request J)) meanwhile (run_all init es) in
        (after ≡ run_all init (es ++ refresh true ∷ meanwhile))
        × (query_status R (response s) ≡ some (run_status (some (list_peers after.registry))))
  unfolding respond run_all
  status_shown es meanwhile =
      let (_, _, received) = commands_delivered J [] 0 0 [] (omega arith) (omega arith) tt in
      rw received (
        sym (run_all-append init es (refresh true ∷ meanwhile)),
        response_read (run_all (step (run_all init es) (refresh true)) meanwhile),
      )
