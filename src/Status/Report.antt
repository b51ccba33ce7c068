-- ===== src/Status/Report.antt =====
-- What src/main.rs shows of the state of the daemon of src/daemon.rs.
use tassh.Peer.{peer_info, PeerInfo, PeerState, usize_mod, get, list_peers}
use tassh.Peer.Listing.{info_at, info_of, list_peers_lem, info_at-list_peers}
use tassh.Daemon.{Daemon, Event, init, run_all}
use tassh.Daemon.Tasks.{count}
use tassh.Daemon.Invariant.{PeersValid, InRange, init-PeersValid, run_all-PeersValid}
use tassh.Daemon.Sessions.{
  watches, sessions_at, IsQuiet, IsQuiet-InRange, session_count_exact, session_count_bounded,
}
use tassh.Daemon.Inbound.{receives, inbound_at, inbound_connections_exact, inbound_connections-le}
use tassh.Daemon.Channels.{forwards, connected_at, close_tx_at, connected_served}
use tassh.Status.{status_of}
use tassh.Prelude.{
  ℕ, Option, List, Text, All, ◌+◌, some, ◌<◌, length, none, ◌∷◌, ◌≡◌, ◌^◌, [], Option-cases, arith,
  codes, ◌∙◌, ◌↔◌, subst, ◌⊎◌, inl, inr, true, sym, Bool-cases,
}

abbrev pub shown_sessions : Option PeerInfo → ℕ
shown_sessions none = 0
shown_sessions (some peer) = peer.session_count

all-InRange : (es : List Event) → All IsQuiet es → All InRange es
all-InRange [] q = tt
all-InRange (e ∷ es) (q, qs) = (IsQuiet-InRange e q, all-InRange es qs)

-- The list shows a host with this number of sessions, and does not show it if the number is zero.
abbrev pub IsShown : Option PeerInfo → ℕ → Type 0
IsShown i n = (shown_sessions i ≡ n) × ((i ≡ none) ↔ (n ≡ 0))

-- The entry of a host in the list, whether the host is known or not.
list_peers-IsShown :
    (d : Daemon) (h : Text)
    → PeersValid d.registry
    → sessions_at (get h d.registry) + inbound_at (get h d.registry) < usize_mod
    → IsShown
        (info_at h (list_peers d.registry))
        (sessions_at (get h d.registry) + inbound_at (get h d.registry))
list_peers-IsShown d h v b = elim (Option-cases (get h d.registry)) [
  | inl e ↦
      let i : info_at h (list_peers d.registry) ≡ none =
        ground (arith, info_at-list_peers d.registry h v.keys) in
      (ground (arith, i), (λ q. ground (arith, e), λ q. i))
  | inr (s, e) ↦
      let i = list_peers_lem d.registry h s v.keys e (ground (arith, e, b)) in
      (ground (arith, i, e), (λ q. ground (arith, i, e, q), λ q. ground (arith, i, e, q)))
]

-- After any history of a new daemon without a Disconnect message, with PIDs that are `u32`s and of
-- fewer than 2^63 events, the status shows for each host the SSH processes that are watched and the
-- connections that are received from: the host is not in the list if it has neither, and only then.
pub status_exact :
    (es : List Event) (h : Text)
    → All IsQuiet es
    → length es < 2 ^ 63
    → let d = run_all init es in
      let n = count (watches h) d.tasks + count (receives h) d.tasks in
      (shown_sessions (info_at h (list_peers d.registry)) ≡ n)
      × ((info_at h (list_peers d.registry) ≡ none) ↔ (n ≡ 0))
status_exact es h q u =
    let r = all-InRange es q in
    let d = run_all init es in
    let i = inbound_connections_exact es h (omega arith) in
    let shown =
      list_peers-IsShown d h (run_all-PeersValid init es r init-PeersValid) (
        omega
          (arith, i, inbound_connections-le es h (omega arith), session_count_bounded es h r)) in
    subst (IsShown (info_at h (list_peers d.registry)))
      (omega (arith, i, session_count_exact es h q)) shown

syncing_connected : (peer : PeerInfo) → status_of peer ≡ codes "syncing" → peer.connected ≡ true
unfolding status_of
syncing_connected peer s = ground arith

-- A host that is shown as connected is connected, or has inbound connections.
shown_connected :
    (h : Text) (o : Option PeerState) (peer : PeerInfo)
    → info_of h o ≡ some peer
    → peer.connected ≡ true
    → (connected_at o ≡ true) ⊎ (0 < inbound_at o)
unfolding peer_info
shown_connected h none peer i c = cc
shown_connected h (some s) peer i c = elim (Bool-cases s.connected) [
  | inl e ↦ inl e
  | inr e ↦ inr (ground arith)
]

-- After any history of a new daemon whose PIDs are `u32`s, of fewer than 2^64 events, a host that the
-- status calls syncing has a connection task in flight, or a task that receives from it.
pub syncing_served :
    (es : List Event) (h : Text) (peer : PeerInfo)
    → All InRange es
    → length es < usize_mod
    → info_at h (list_peers (run_all init es).registry) ≡ some peer
    → status_of peer ≡ codes "syncing"
    → ((c : ℕ) × (close_tx_at (get h (run_all init es).registry) ≡ some c)
        × (0 < count (forwards h c) (run_all init es).tasks))
      ⊎ (0 < count (receives h) (run_all init es).tasks)
syncing_served es h peer u b i s =
    let d = run_all init es in
    let v = run_all-PeersValid init es u init-PeersValid in
    elim (shown_connected h (get h d.registry) peer
      (sym (info_at-list_peers d.registry h v.keys) ∙ i) (syncing_connected peer s)) [
        | inl c ↦ inl (connected_served es h u c)
        | inr n ↦ inr (omega (arith, n, inbound_connections_exact es h b))
      ]
