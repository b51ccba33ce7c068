-- ===== src/Peer/Unordered.antt =====
-- The registry of src/peer.rs without the order of its map: a `HashMap` of Rust is iterated in any
-- order, and the lists of its entries that agree on every lookup stand for the same map.
use mathlib.Core.Quot
use mathlib.Core.Quot.{Quot, Quot-set}
use mathlib.Core.List.Perm
use mathlib.Core.List.{filter_map}
use tassh.Peer.{
  PeerState, PeerRegistry, PeerInfo, get, get_mut, get_or_create, list_peers, list_entries,
  peer_info, get-get_mut, get-get_or_create,
}
use tassh.Prelude.{
  inl, inr, ap, Option-cases, Text, List, Option, [], ◌∷◌, ◌≡◌, HashMap, KeysDistinct, Perm,
  SameMap-Perm, arith, text_eq_iff, refl,
}

-- The same state, or none, under each hostname.
abbrev pub SamePeers : PeerRegistry → PeerRegistry → Type 0
SamePeers r s = (h : Text) → get h r ≡ get h s

abbrev pub Unordered : Type 0
Unordered = Quot SamePeers

abbrev pub view : PeerRegistry → Unordered
view r = Quot.mk r

get_mut-SamePeers :
    (h : Text) (f : PeerState → PeerState) (r s : PeerRegistry)
    → SamePeers r s
    → SamePeers (get_mut h f r) (get_mut h f s)
get_mut-SamePeers h f r s e j = ground (arith, get-get_mut h j f r, get-get_mut h j f s, e j)

get_or_create-SamePeers :
    (h : Text) (r s : PeerRegistry)
    → SamePeers r s
    → SamePeers (get_or_create h r) (get_or_create h s)
get_or_create-SamePeers h r s e j =
    ground (arith, get-get_or_create h j r, get-get_or_create h j s, e j)

-- The operations of the registry on the view.
update : Text → (PeerState → PeerState) → Unordered → Unordered
update h f =
    Quot.lift Quot-set (λ r. view (get_mut h f r))
      (λ r s e. Quot.sound (get_mut-SamePeers h f r s e))

create : Text → Unordered → Unordered
create h =
    Quot.lift Quot-set (λ r. view (get_or_create h r))
      (λ r s e. Quot.sound (get_or_create-SamePeers h r s e))

-- In the view, the order in which hosts are inserted is forgotten.
create_comm : (h j : Text) (u : Unordered) → create h (create j u) ≡ create j (create h u)
unfolding create
create_comm h j =
    Quot.ind (λ u. Quot-set _ _)
      (λ r. Quot.sound (λ k. ground (
        arith,
        get-get_or_create h k (get_or_create j r),
        get-get_or_create j k (get_or_create h r),
        get-get_or_create h k r,
        get-get_or_create j k r,
        text_eq_iff h k,
        text_eq_iff j k,
      )))

abbrev info : Text × PeerState → Option PeerInfo
info (h, s) = peer_info h s

list_entries-filter_map : (m : HashMap PeerState) → list_entries m ≡ filter_map info m
unfolding list_entries filter_map
list_entries-filter_map [] = refl
list_entries-filter_map ((h, s) ∷ m) = elim (Option-cases (peer_info h s)) [
  | inl q ↦ rw q (list_entries-filter_map m)
  | inr (p, q) ↦ rw q (ap (λ (ps : List PeerInfo). p ∷ ps) (list_entries-filter_map m))
]

Entries-Perm : {m n : HashMap PeerState} → Perm m n → Perm (list_entries m) (list_entries n)
Entries-Perm {m} {n} p =
    rw (list_entries-filter_map m, list_entries-filter_map n) (Perm.filter_map info p)

-- The status lists of registries that agree on every hostname are the same but for their order.
pub list_peers-Perm :
    (r s : PeerRegistry)
    → KeysDistinct r.peers
    → KeysDistinct s.peers
    → SamePeers r s
    → Perm (list_peers r) (list_peers s)
unfolding list_peers get
list_peers-Perm r s dr ds e = Entries-Perm (SameMap-Perm r.peers s.peers dr ds e)

pub SamePeers-view : {r s : PeerRegistry} → SamePeers r s → view r ≡ view s
SamePeers-view e = Quot.sound e
