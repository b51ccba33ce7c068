-- ===== src/Inbound/Known.antt =====
-- An accepted connection of src/daemon.rs whose address belongs to a host of the registry.
use tassh.Peer.{
  PeerState, PeerRegistry, usize_add, get, get_mut, get_or_create, hostnames, keys_where, fresh,
  get-get_mut, get-get_or_create,
}
use tassh.Peer.Listing.{has_text}
use tassh.Daemon.Sections.{inbound_opened}
use tassh.Daemon.Inbound.{inbound_at}
use tassh.Daemon.{Daemon, Event, run_all, accept_inbound}
use tassh.Daemon.Hosts.{run_all-Stays, registry-accept_inbound}
use tassh.Inbound.{find_first, resolve_inbound_peer_key}
use tassh.Inbound.Keys.{find_first-cases, none_passes-has_text}
use tassh.Inbound.Accept.{Remote, accept_from}
use tassh.Prelude.{
  ap, sym, ◌∙◌, Text, Bool, List, Option, ◌≡◌, true, some, [], ◌∷◌, is_some, if◌then◌else◌, arith,
  text_eq, text_eq_iff, refl, HashMap, modify, or_insert, lookup, inl, inr,
}

abbrev known : PeerState → Bool
known p = true

keys-modify :
    (h : Text) (f : PeerState → PeerState) (m : HashMap PeerState)
    → keys_where known (modify h f m) ≡ keys_where known m
unfolding keys_where modify
keys-modify h f [] = refl
keys-modify h f ((j, p) ∷ m) = ground (arith, keys-modify h f m)

keys-or_insert :
    (h : Text) (m : HashMap PeerState)
    → is_some (lookup h m) ≡ true
    → keys_where known (or_insert h fresh m) ≡ keys_where known m
unfolding keys_where or_insert lookup
keys-or_insert h [] e = cc
keys-or_insert h ((j, p) ∷ m) e = ground (arith, keys-or_insert h m, e)

keys-lookup :
    (h : Text) (m : HashMap PeerState) → has_text (keys_where known m) h ≡ is_some (lookup h m)
unfolding keys_where lookup
keys-lookup h [] = refl
keys-lookup h ((j, p) ∷ m) = ground (arith, keys-lookup h m)

-- A host that is known is counted under, and no host is added.
accept_inbound-known :
    (h : Text) (d : Daemon)
    → is_some (get h d.registry) ≡ true
    → let a = accept_inbound h d in
      (hostnames a.registry ≡ hostnames d.registry)
      × ((j : Text)
          → inbound_at (get j a.registry) ≡ (
              if text_eq h j
              then usize_add (inbound_at (get j d.registry)) 1
              else inbound_at (get j d.registry)))
unfolding inbound_opened hostnames get_mut get_or_create get
accept_inbound-known h d e = rw (registry-accept_inbound h d) (
  names,
  λ j. ground (
    arith,
    get-get_mut h j inbound_opened (get_or_create h d.registry),
    get-get_or_create h j d.registry,
    text_eq_iff h j,
    e,
  ),
)
  where
    names : hostnames (get_mut h inbound_opened (get_or_create h d.registry)) ≡ hostnames d.registry
    names =
        keys-modify h inbound_opened (or_insert h fresh d.registry.peers)
        ∙ keys-or_insert h d.registry.peers e

key-found :
    (p : Text → Bool) (reverse_host : Option Text) (peer_ip key : Text)
    (listed relisted : List Text)
    → find_first p listed ≡ some key
    → resolve_inbound_peer_key p reverse_host peer_ip listed relisted ≡ key
unfolding resolve_inbound_peer_key
key-found p reverse_host peer_ip key listed relisted f = rw (f, resolve_inbound_peer_key)

accept_from-found :
    (remote : Remote) (resolving resolved : List Event) (d : Daemon) (key : Text)
    → find_first remote.resolves_to_ip (hostnames d.registry) ≡ some key
    → accept_from remote resolving resolved d
      ≡ accept_inbound key (run_all (run_all d resolving) resolved)
unfolding accept_from
accept_from-found remote resolving resolved d key f =
    ap (λ k. accept_inbound k (run_all (run_all d resolving) resolved))
      (key-found remote.resolves_to_ip remote.reverse_host remote.peer_ip key _ _ f)

listed-get :
    (r : PeerRegistry) (h : Text) → has_text (hostnames r) h ≡ true → is_some (get h r) ≡ true
unfolding hostnames get
listed-get r h e = sym (keys-lookup h r.peers) ∙ e

pub get-listed :
    (r : PeerRegistry) (h : Text) → is_some (get h r) ≡ true → has_text (hostnames r) h ≡ true
unfolding hostnames get
get-listed r h e = keys-lookup h r.peers ∙ e

-- A connection from an address to which a known host resolves is counted under such a host, whatever
-- happens while it is resolved: no host is added, and no other count changes.
pub known_host_counted :
    (remote : Remote) (resolving resolved : List Event) (d : Daemon) (host : Text)
    → has_text (hostnames d.registry) host ≡ true
    → remote.resolves_to_ip host ≡ true
    → let e = run_all (run_all d resolving) resolved in
      let a = accept_from remote resolving resolved d in
      (key : Text) × (remote.resolves_to_ip key ≡ true)
      × (hostnames a.registry ≡ hostnames e.registry)
      × ((j : Text)
          → inbound_at (get j a.registry) ≡ (
              if text_eq key j
              then usize_add (inbound_at (get j e.registry)) 1
              else inbound_at (get j e.registry)))
known_host_counted remote resolving resolved d host has resolves =
    elim (find_first-cases remote.resolves_to_ip (hostnames d.registry)) [
      | inl (key, listed, passes, f) ↦
          let kept =
            run_all-Stays (run_all d resolving) resolved key
              (run_all-Stays d resolving key (listed-get d.registry key listed)) in
          let counted = accept_inbound-known key (run_all (run_all d resolving) resolved) kept in
          let (names, counts) = counted in
          let same = accept_from-found remote resolving resolved d key f in
          (key, passes, rw same names, λ j. rw same (counts j))
      | inr (none_passes, f) ↦ absurd (
          ground (
            arith,
            resolves,
            none_passes-has_text remote.resolves_to_ip (hostnames d.registry) host none_passes has,
          ))
    ]
