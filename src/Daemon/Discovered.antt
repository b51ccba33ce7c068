-- ===== src/Daemon/Discovered.antt =====
-- src/daemon.rs: what the section of a discovered host makes of the registry.
use tassh.Peer.{PeerState, get, get_mut, get_or_create, fresh, get-get_mut, get-get_or_create}
use tassh.Daemon.{Daemon, discovered, step, discover_host, discover_section, create}
use tassh.Prelude.{
  KeysDistinct, modify-KeysDistinct, or_insert-KeysDistinct, or_insert, ℕ, Text, List, Option, some,
  none, ◌≡◌, if◌then◌else◌, text_eq, arith,
}

-- The state of a host with its discovered processes.
unfoldable pub with_pids : List ℕ → Option PeerState → PeerState
with_pids pids none = (discover_section pids fresh).0
with_pids pids (some p) = (discover_section pids p).0

pub get-discovered :
    (d : Daemon) (h k : Text) (pids : List ℕ)
    → get k (step d (discovered h pids)).registry
      ≡ (if text_eq h k then some (with_pids pids (get k d.registry)) else get k d.registry)
unfolding step discover_host create with_pids
get-discovered d h k pids = ground (
  arith,
  get-get_mut h k (λ p. (discover_section pids p).0) (get_or_create h d.registry),
  get-get_or_create h k d.registry,
)

pub discovered-KeysDistinct :
    (d : Daemon) (h : Text) (pids : List ℕ)
    → KeysDistinct d.registry.peers
    → KeysDistinct (step d (discovered h pids)).registry.peers
unfolding step discover_host create get_mut get_or_create
discovered-KeysDistinct d h pids k =
    modify-KeysDistinct h (λ p. (discover_section pids p).0) (or_insert h fresh d.registry.peers)
      (or_insert-KeysDistinct h fresh d.registry.peers k)
