-- ===== src/Inbound/Unnamed.antt =====
-- Connections of src/daemon.rs from an address that has no name.
use tassh.Peer.{get, get_or_create, hostnames, usize_add, get-get_mut, get-get_or_create}
use tassh.Peer.Listing.{has_text}
use tassh.Daemon.Sections.{inbound_opened}
use tassh.Daemon.Inbound.{inbound_at}
use tassh.Daemon.{Daemon, Event, run_all, accept_inbound}
use tassh.Daemon.Hosts.{run_all-Stays, registry-accept_inbound}
use tassh.Inbound.{find_first, resolve_inbound_peer_key}
use tassh.Inbound.Accept.{accept_from}
use tassh.Inbound.Known.{known_host_counted, get-listed}
use tassh.Inbound.Resolve.{
  IpAddr, v4, v6, IsAddress, Addresses, SockAddr, same_address, host_resolves_to_ip,
  reverse_dns_lookup, remote_at,
}
use tassh.Prelude.{
  ℕ, Text, Bool, Option, List, none, true, ◌≡◌, is_some, if◌then◌else◌, text_eq, text_eq_refl,
  arith, ap,
}

same_address_self : (ip : IpAddr) → same_address ip ip ≡ true
same_address_self (v4 octets) = text_eq_refl octets
same_address_self (v6 octets) = text_eq_refl octets

key_by_address :
    (p : Text → Bool) (reverse_host : Option Text) (peer_ip : Text) (listed relisted : List Text)
    → find_first p listed ≡ none
    → reverse_host ≡ none
    → resolve_inbound_peer_key p reverse_host peer_ip listed relisted ≡ peer_ip
unfolding resolve_inbound_peer_key
key_by_address p reverse_host peer_ip listed relisted f n = rw (f, n, resolve_inbound_peer_key)

created : (h : Text) (d : Daemon) → is_some (get h (accept_inbound h d).registry) ≡ true
created h d = rw (registry-accept_inbound h d) (
    ground (
      arith,
      get-get_mut h h inbound_opened (get_or_create h d.registry),
      get-get_or_create h h d.registry,
      text_eq_refl h,
    ))

module _ (A : Addresses) where
  open A use {parse_ip, show_ip, parses_back}

  -- The text of an address resolves to it, whatever DNS answers.
  show_ip-resolves :
      (lookup_host : Text → Option (List IpAddr)) (ip : IpAddr)
      → IsAddress ip
      → host_resolves_to_ip A lookup_host ip (show_ip ip) ≡ true
  unfolding host_resolves_to_ip
  show_ip-resolves lookup_host ip h = ground (arith, parses_back ip h, same_address_self ip)

  unnamed_key :
      (lookup_host : Text → Option (List IpAddr)) (joins : Bool)
      (getnameinfo : SockAddr → Option (List ℕ)) (ip : IpAddr) (resolving resolved : List Event)
      (d : Daemon)
      → find_first (host_resolves_to_ip A lookup_host ip) (hostnames d.registry) ≡ none
      → reverse_dns_lookup A joins getnameinfo ip ≡ none
      → accept_from (remote_at A lookup_host joins getnameinfo ip) resolving resolved d
        ≡ accept_inbound (show_ip ip) (run_all (run_all d resolving) resolved)
  unfolding accept_from remote_at
  unnamed_key lookup_host joins getnameinfo ip resolving resolved d f n =
      ap (λ (k : Text). accept_inbound k (run_all (run_all d resolving) resolved))
        (key_by_address (host_resolves_to_ip A lookup_host ip)
          (reverse_dns_lookup A joins getnameinfo ip) (show_ip ip) _ _ f n)

  -- A connection from an address to which no known host resolves, and that has no name, makes the text of
  -- the address a known host. Whatever happens then, a later connection from the address is counted
  -- under a known host that resolves to it, whatever DNS answers by then: it adds no host, and
  -- changes no other count.
  pub unnamed_address_known :
      (lookup_host lookup_later : Text → Option (List IpAddr)) (joins joins_later : Bool)
      (getnameinfo getnameinfo_later : SockAddr → Option (List ℕ)) (ip : IpAddr)
      (resolving resolved between resolving' resolved' : List Event) (d : Daemon)
      → IsAddress ip
      → find_first (host_resolves_to_ip A lookup_host ip) (hostnames d.registry) ≡ none
      → reverse_dns_lookup A joins getnameinfo ip ≡ none
      → let a = accept_from (remote_at A lookup_host joins getnameinfo ip) resolving resolved d in
        let c = run_all a between in
        let e = run_all (run_all c resolving') resolved' in
        let b =
          accept_from
            (remote_at A lookup_later joins_later getnameinfo_later ip)
            resolving'
            resolved'
            c in
        (has_text (hostnames a.registry) (show_ip ip) ≡ true)
        × (hostnames b.registry ≡ hostnames e.registry)
        × ((key : Text) × (host_resolves_to_ip A lookup_later ip key ≡ true)
            × ((j : Text)
                → inbound_at (get j b.registry) ≡ (
                    if text_eq key j
                    then usize_add (inbound_at (get j e.registry)) 1
                    else inbound_at (get j e.registry))))
  unfolding remote_at
  unnamed_address_known lookup_host lookup_later joins joins_later getnameinfo getnameinfo_later ip
        resolving resolved between resolving' resolved' d h f n =
      let first = unnamed_key lookup_host joins getnameinfo ip resolving resolved d f n in
      let before = run_all (run_all d resolving) resolved in
      let here = created (show_ip ip) before in
      let there = run_all-Stays (accept_inbound (show_ip ip) before) between (show_ip ip) here in
      rw first (
        let (key, passes, names, counts) =
          known_host_counted (remote_at A lookup_later joins_later getnameinfo_later ip) resolving'
            resolved' (run_all (accept_inbound (show_ip ip) before) between) (show_ip ip)
            (get-listed _ (show_ip ip) there) (show_ip-resolves lookup_later ip h) in
        (get-listed _ (show_ip ip) here, names, (key, passes, counts)))
