-- ===== src/Discovery/Order.antt =====
-- The loop of `discover_existing_ssh_sessions` in src/daemon.rs over its map of hosts, which Rust
-- iterates in any order.
use tassh.Strings.Words.{lines}
use tassh.Peer.{PeerState, get, list_peers}
use tassh.Peer.Unordered.{SamePeers, view, list_peers-Perm, SamePeers-view}
use tassh.Daemon.{Daemon, Event, discovered, init, run_all, step}
use tassh.Daemon.Discovered.{with_pids, get-discovered, discovered-KeysDistinct}
use tassh.Daemon.Invariant.{InRange, run_all-PeersValid, init-PeersValid}
use tassh.Discovery.{group_lines, host_events}
use tassh.Discovery.Grouping.{group_lines-WellFormed}
use tassh.Prelude.{
  ℕ, Text, List, All, Option, HashMap, KeysDistinct, SameMap, Perm, lookup, some, none, [], ◌∷◌,
  ◌≡◌, arith, text_eq_iff, refl,
}

-- A host that is in the map gets its processes.
abbrev found : Option (List ℕ) → Option PeerState → Option PeerState
found none o = o
found (some pids) o = some (with_pids pids o)

get-host_events :
    (d : Daemon) (m : HashMap (List ℕ)) (k : Text)
    → KeysDistinct m
    → get k (run_all d (host_events m)).registry ≡ found (lookup k m) (get k d.registry)
unfolding host_events run_all lookup
get-host_events d [] k t = refl
get-host_events d ((h, pids) ∷ m) k (out, t) = ground (
  arith,
  get-host_events (step d (discovered h pids)) m k t,
  get-discovered d h k pids,
  text_eq_iff h k,
  out,
)

host_events-KeysDistinct :
    (d : Daemon) (m : HashMap (List ℕ))
    → KeysDistinct d.registry.peers
    → KeysDistinct (run_all d (host_events m)).registry.peers
unfolding host_events run_all
host_events-KeysDistinct d [] k = k
host_events-KeysDistinct d ((h, pids) ∷ m) k =
    host_events-KeysDistinct (step d (discovered h pids)) m (discovered-KeysDistinct d h pids k)

-- In whatever order the hosts that pgrep lists come, after any history: the registry is the same but for
-- the order of its map, and the status list the same but for its order.
pub discovery_any_order :
    (es : List Event) (self_aliases : List Text) (stdout : Text) (m n : HashMap (List ℕ))
    → All InRange es
    → group_lines self_aliases (lines stdout) [] ≡ some m
    → KeysDistinct n
    → SameMap m n
    → let r = (run_all (run_all init es) (host_events m)).registry in
      let s = (run_all (run_all init es) (host_events n)).registry in
      (view r ≡ view s) × Perm (list_peers r) (list_peers s)
discovery_any_order es self_aliases stdout m n u e dn same =
    let dm =
      (group_lines-WellFormed self_aliases (lines stdout) [] m e
        (record { keys = tt; small = tt })).keys in
    let before = run_all init es in
    let distinct = (run_all-PeersValid init es u init-PeersValid).keys in
    let agree : SamePeers (run_all before (host_events m)).registry
        (run_all before (host_events n)).registry =
      λ k. ground (arith, get-host_events before m k dm, get-host_events before n k dn, same k) in
    (
      SamePeers-view agree,
      list_peers-Perm _ _ (host_events-KeysDistinct before m distinct)
          (host_events-KeysDistinct before n distinct) agree,
    )
