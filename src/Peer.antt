-- ===== src/Peer.antt =====
-- src/peer.rs: the registry of peers, keyed by hostname, and what `tassh status` is told of it.
-- `usize` is 64 bits wide. `close_tx` holds the sender of a connection's close channel, here the
-- number of that channel; to drop the sender is to close the connection. The clipboard broadcast
-- channel of the registry is shared with the daemon and is no part of this state.
use tassh.Prelude.{
  ℕ, HashMap, Text, [], false, Option, List, Bool, ◌^◌, ◌+◌, none, or_insert, lookup, modify,
  remove, if◌then◌else◌, ltb, ◌&&◌, true, ◌≡◌, some, ◌%◌, ◌==◌, ◌∷◌, text_eq, ◌||◌, map_option,
  or_else, lookup-modify, lookup-or_insert,
}
pub mod Listing
pub mod Unordered
mod Examples

abbrev pub usize_mod : ℕ
usize_mod = 2 ^ 64

abbrev pub usize_add : ℕ → ℕ → ℕ
usize_add a b = (a + b) % usize_mod

pub record PeerState : Type 0 where
  pub session_count : ℕ
  pub inbound_connections : ℕ
  pub connected : Bool
  pub connecting : Bool
  pub probe_failed : Bool
  pub watched_pids : List ℕ
  pub pid_watcher_handles : List ℕ
  pub close_tx : Option ℕ

pub record PeerRegistry : Type 0 where
  pub peers : HashMap PeerState

pub record PeerInfo : Type 0 where
  pub hostname : Text
  pub connected : Bool
  pub no_daemon : Bool
  pub session_count : ℕ

abbrev pub new : PeerRegistry
new = record { peers = [] }

-- The state that `get_or_create` inserts.
abbrev pub fresh : PeerState
fresh = record {
  session_count = 0;
  inbound_connections = 0;
  connected = false;
  connecting = false;
  probe_failed = false;
  watched_pids = [];
  pid_watcher_handles = [];
  close_tx = none;
}

unfoldable pub get_or_create : Text → PeerRegistry → PeerRegistry
get_or_create hostname r = record r { peers = or_insert hostname fresh r.peers }

unfoldable pub get : Text → PeerRegistry → Option PeerState
get hostname r = lookup hostname r.peers

-- `if let Some(peer) = reg.get_mut(hostname) { .. }`, where `f` is what the block does to `peer`.
unfoldable pub get_mut : Text → (PeerState → PeerState) → PeerRegistry → PeerRegistry
get_mut hostname f r = record r { peers = modify hostname f r.peers }

unfoldable pub remove_peer : Text → PeerRegistry → PeerRegistry × Option PeerState
remove_peer hostname r = (record r { peers = remove hostname r.peers }, lookup hostname r.peers)

-- The closure of `list_peers`.
unfoldable pub peer_info : Text → PeerState → Option PeerInfo
peer_info hostname s =
    let total_sessions = usize_add s.session_count s.inbound_connections in
    if total_sessions == 0
    then none
    else some (record {
      hostname = hostname;
      connected = s.connected || ltb 0 s.inbound_connections;
      no_daemon = s.probe_failed && s.inbound_connections == 0;
      session_count = total_sessions;
    })

abbrev cons_some {ℓ} : {A : Type ℓ} → Option A → List A → List A
cons_some none xs = xs
cons_some (some x) xs = x ∷ xs

list_entries : HashMap PeerState → List PeerInfo
list_entries [] = []
list_entries ((hostname, s) ∷ m) = cons_some (peer_info hostname s) (list_entries m)

unfoldable pub list_peers : PeerRegistry → List PeerInfo
unfolding list_entries
list_peers r = list_entries r.peers

-- The keys of the entries that pass a test.
unfoldable pub keys_where : (PeerState → Bool) → HashMap PeerState → List Text
keys_where p [] = []
keys_where p ((hostname, s) ∷ m) =
    let rest = keys_where p m in if p s then hostname ∷ rest else rest

unfoldable pub hosts_with_sessions : PeerRegistry → List Text
unfolding keys_where
hosts_with_sessions r = keys_where (λ s. ltb 0 s.session_count) r.peers

unfoldable pub connected_hosts_without_sessions : PeerRegistry → List Text
unfolding keys_where
connected_hosts_without_sessions r = keys_where (λ s. s.connected && s.session_count == 0) r.peers

unfoldable pub hostnames : PeerRegistry → List Text
unfolding keys_where
hostnames r = keys_where (λ s. true) r.peers

-- The registry behind one update, and behind one insertion.
pub get-get_mut :
    (h j : Text) (f : PeerState → PeerState) (r : PeerRegistry)
    → get j (get_mut h f r) ≡ (if text_eq h j then map_option f (get j r) else get j r)
unfolding get get_mut
get-get_mut h j f r = lookup-modify h j f r.peers

pub get-get_or_create :
    (h j : Text) (r : PeerRegistry)
    → get j (get_or_create h r) ≡ (if text_eq h j then or_else fresh (get j r) else get j r)
unfolding get get_or_create
get-get_or_create h j r = lookup-or_insert h j fresh r.peers
