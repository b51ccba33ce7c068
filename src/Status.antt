-- ===== src/Status.antt =====
-- src/main.rs: what `tassh status` prints.
-- The answer of the daemon is an argument, `none` if there is no daemon to connect to; Ipc/Answer has the
-- way of the answer over the socket.
pub mod Report
mod Examples
use tassh.Strings.Numbers.{to_string}
use tassh.Peer.{PeerInfo}
use tassh.Prelude.{
  ℕ, Text, List, Option, Bool, if◌then◌else◌, codes, ◌∷◌, ◌==◌, ◌++◌, [], some, none,
}

unfoldable pub status_of : PeerInfo → Text
status_of peer =
    if peer.connected
    then codes "syncing"
    else if peer.no_daemon
    then codes "no daemon"
    else codes "probing"

abbrev plural : ℕ → Text
plural n = if n == 1 then [] else codes "s"

unfoldable pub peer_line : PeerInfo → Text
unfolding status_of to_string
peer_line peer =
    codes "  "
    ++ peer.hostname
    ++ codes " -- "
    ++ status_of peer
    ++ codes " ("
    ++ to_string peer.session_count
    ++ codes " SSH session"
    ++ plural peer.session_count
    ++ codes ")"

abbrev peer_lines : List PeerInfo → List Text
peer_lines [] = []
peer_lines (peer ∷ peers) = peer_line peer ∷ peer_lines peers

-- The lines that are printed.
unfoldable pub run_status : Option (List PeerInfo) → List Text
unfolding peer_line
run_status none = codes "daemon not running" ∷ []
run_status (some []) = codes "daemon running, no active connections" ∷ []
run_status (some (peer ∷ peers)) = codes "Peers:" ∷ peer_lines (peer ∷ peers)
