-- ===== src/Peer/Listing.antt =====
-- What the listings of src/peer.rs hold, in terms of the states that are looked up by hostname.
use tassh.Peer.{
  PeerState, PeerRegistry, PeerInfo, get, peer_info, list_peers, list_entries, keys_where,
  hosts_with_sessions, connected_hosts_without_sessions, hostnames, usize_mod, cons_some,
}
use tassh.Prelude.{
  All, HashMap, KeysDistinct, lookup, Text, text_eq, List, Bool, Option, ◌≡◌, false, none, ltb,
  some, ◌&&◌, ◌+◌, [], ◌||◌, arith, if◌then◌else◌, ◌==◌, ◌<◌, text_eq_iff, is_some, true,
  text_eq_refl, refl, ◌∷◌, ℕ, subst, ap,
}

abbrev pub has_text : List Text → Text → Bool
has_text [] h = false
has_text (t ∷ ts) h = text_eq t h || has_text ts h

abbrev pub test_at : (PeerState → Bool) → Option PeerState → Bool
test_at p none = false
test_at p (some s) = p s

has_text-keys_where :
    (p : PeerState → Bool) (h : Text) (m : HashMap PeerState)
    → KeysDistinct m
    → has_text (keys_where p m) h ≡ test_at p (lookup h m)
unfolding keys_where lookup
has_text-keys_where p h [] d = refl
has_text-keys_where p h ((i, s) ∷ m) (out, d) =
    ground (arith, has_text-keys_where p h m d, text_eq_iff i h)

-- The first entry for a hostname in a status response.
abbrev pub info_at : Text → List PeerInfo → Option PeerInfo
info_at h [] = none
info_at h (i ∷ is) = if text_eq i.hostname h then some i else info_at h is

abbrev pub info_of : Text → Option PeerState → Option PeerInfo
info_of h none = none
info_of h (some s) = peer_info h s

info_at-list_entries :
    (h : Text) (m : HashMap PeerState)
    → KeysDistinct m
    → info_at h (list_entries m) ≡ info_of h (lookup h m)
unfolding list_entries lookup peer_info
info_at-list_entries h [] d = refl
info_at-list_entries h ((i, s) ∷ m) (out, d) =
    ground (arith, info_at-list_entries h m d, text_eq_iff i h)

-- What the status list says of a host is read off its state.
pub info_at-list_peers :
    (r : PeerRegistry) (h : Text)
    → KeysDistinct r.peers
    → info_at h (list_peers r) ≡ info_of h (get h r)
unfolding list_peers get
info_at-list_peers r h d = info_at-list_entries h r.peers d

cons_some-All :
    {A : Type 0} (P : A → Type 0) (x : Option A) (xs : List A)
    → ((a : A) → x ≡ some a → P a)
    → All P xs
    → All P (cons_some x xs)
cons_some-All P none xs hx h = h
cons_some-All P (some a) xs hx h = (hx a refl, h)

abbrev count_of : Option PeerInfo → ℕ
count_of none = 0
count_of (some p) = p.session_count

count_of-peer_info : (h : Text) (s : PeerState) → count_of (peer_info h s) < usize_mod
unfolding peer_info
count_of-peer_info h s = ground arith

list_entries-bounded :
    (m : HashMap PeerState) → All (λ p. p.session_count < usize_mod) (list_entries m)
unfolding list_entries
list_entries-bounded [] = tt
list_entries-bounded ((h, s) ∷ m) =
    cons_some-All _ (peer_info h s) (list_entries m)
      (λ p e. subst (λ n. n < usize_mod) (ap count_of e) (count_of-peer_info h s))
      (list_entries-bounded m)

-- The counts of the status list are numbers of 64 bits.
pub list_peers-bounded : (r : PeerRegistry) → All (λ p. p.session_count < usize_mod) (list_peers r)
unfolding list_peers
list_peers-bounded r = list_entries-bounded r.peers

-- In a registry whose hostnames are distinct, each of the three lists of hosts holds exactly the
-- hosts whose state passes its test.
pub hosts_listed :
    (r : PeerRegistry) (h : Text)
    → KeysDistinct r.peers
    → (has_text (hosts_with_sessions r) h ≡ test_at (λ s. ltb 0 s.session_count) (get h r))
      × (has_text (connected_hosts_without_sessions r) h
          ≡ test_at (λ s. s.connected && s.session_count == 0) (get h r))
      × (has_text (hostnames r) h ≡ is_some (get h r))
unfolding hosts_with_sessions connected_hosts_without_sessions hostnames get
hosts_listed r h d = (
  has_text-keys_where _ h r.peers d,
  has_text-keys_where _ h r.peers d,
  ground (arith, has_text-keys_where (λ s. true) h r.peers d),
)

-- In a registry whose hostnames are distinct, a host whose sessions and inbound connections do not
-- pass the range of a `usize` together is in the status list exactly if it has one of them. It is
-- shown with their sum, as connected if it is or if it has inbound connections, and as without
-- daemon if the last probe failed and it has no inbound connection.
pub list_peers_lem :
    (r : PeerRegistry) (h : Text) (s : PeerState)
    → KeysDistinct r.peers
    → get h r ≡ some s
    → s.session_count + s.inbound_connections < usize_mod
    → info_at h (list_peers r) ≡ (
        if ltb 0 (s.session_count + s.inbound_connections)
        then some (record {
          hostname = h;
          connected = s.connected || ltb 0 s.inbound_connections;
          no_daemon = s.probe_failed && s.inbound_connections == 0;
          session_count = s.session_count + s.inbound_connections;
        })
        else none)
unfolding list_peers get peer_info
list_peers_lem r h s d e b = ground (arith, info_at-list_entries h r.peers d)

pub keys_where-eq-nil :
    (p : PeerState → Bool) (m : HashMap PeerState)
    → KeysDistinct m
    → ((h : Text) (s : PeerState) → lookup h m ≡ some s → p s ≡ false)
    → keys_where p m ≡ []
unfolding keys_where lookup
keys_where-eq-nil p [] d no_one = refl
keys_where-eq-nil p ((i, v) ∷ m) (out, d) no_one = ground (
  arith,
  no_one i v,
  text_eq_refl i,
  keys_where-eq-nil p m d (λ h s e. no_one h s (ground (arith, text_eq_iff i h))),
)
