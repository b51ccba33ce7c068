-- ===== src/Ipc/Answer.antt =====
-- The answer to a status request: the rest of `handle_ipc_connection` with `write_response` in
-- src/daemon.rs, and `run_status` in src/main.rs, which prints it.
-- serde belongs to a library: its JSON of a `StatusResponse` is the interface `ResponseJson`.
use tassh.Peer.{PeerInfo, list_peers}
use tassh.Daemon.{Daemon, Event, run_all, step}
use tassh.Ipc.{Reaction, ignored, event, answered, broadcast, first_line}
use tassh.Status.{run_status}
use tassh.Prelude.{
  Text, List, Option, All, some, none, [], ◌∷◌, ◌++◌, ◌==◌, ◌≡◌, ◌<◌, ◌^◌, false, map_option,
}

-- The counts are of the type `usize`.
abbrev pub IsResponse : List PeerInfo → Type 0
IsResponse = All (λ p. p.session_count < 2 ^ 64)

-- A response of that type is written, without a line feed, and read back with the line feed behind it.
pub record ResponseJson : Type 0 where
  pub to_string : List PeerInfo → Option Text
  pub from_str : Text → Option (List PeerInfo)
  pub reads_back :
      (ps : List PeerInfo)
      → IsResponse ps
      → (s : Text) × (to_string ps ≡ some s)
        × (All (λ c. (c == 10) ≡ false) s)
        × (from_str (s ++ 10 ∷ []) ≡ some ps)

-- What the status command meets: no daemon, or an error of the socket, or what it reads until the daemon
-- closes the connection.
pub data Dialogue : Type 0 where
  not_running failed : Dialogue
  response : Text → Dialogue

abbrev pub unwrap_or_default : Option Text → Text
unwrap_or_default none = []
unwrap_or_default (some s) = s

abbrev pub write_response : Text → Text
write_response json = json ++ 10 ∷ []

module _ (R : ResponseJson) where
  open R use {to_string, from_str}

  -- What is done with the registry, and what is written back. `meanwhile` is what the other tasks do
  -- between the refresh and the listing.
  unfoldable pub respond : Reaction → List Event → Daemon → Daemon × Text
  respond ignored meanwhile d = (d, [])
  respond (event e) meanwhile d = (step d e, [])
  respond (broadcast f) meanwhile d = (d, [])
  respond (answered e) meanwhile d =
      let refreshed = run_all (step d e) meanwhile in
      (refreshed, write_response (unwrap_or_default (to_string (list_peers refreshed.registry))))

  -- The lines that the command prints, unless it fails.
  unfoldable pub query_status : Dialogue → Option (List Text)
  unfolding run_status first_line
  query_status not_running = some (run_status none)
  query_status failed = none
  query_status (response s) = map_option (λ ps. run_status (some ps)) (from_str (first_line s))
