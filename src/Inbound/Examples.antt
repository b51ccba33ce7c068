-- ===== src/Inbound/Examples.antt =====
-- Keys of inbound connections from the host `box`.
use tassh.Inbound.Resolve.{
  IpAddr, v4, v6, Addresses, host_resolves_to_ip, reverse_dns_lookup, remote_at, until_nul,
}
use tassh.Inbound.Unnamed.{unnamed_address_known}
use tassh.Inbound.{find_first}
use tassh.Inbound.Accept.{accept_from, Remote}
use tassh.Strings.{trim}
use tassh.Daemon.{connect, init, run_all, Daemon, refresh, step, handle_connect}
use tassh.Prelude.{
  ◌==◌, ◌++◌, if◌then◌else◌, text_eq, true, codes, Option, some, arith, none, modify, or_insert,
  Text, Bool, [], ◌∷◌, false, ◌≡◌, refl,
}
use tassh.Peer.{get, hostnames, usize_add, get_mut}
use tassh.Peer.Listing.{has_text}
use tassh.Daemon.Inbound.{inbound_at}
use tassh.Inbound.Known.{known_host_counted}

abbrev unresolved : Text → Bool
unresolved h = false

abbrev ip : Text
ip = codes "100.64.0.7"

abbrev box_a : Text
box_a = codes "box.a.org"

abbrev box_b : Text
box_b = codes "box.b.org."

-- A daemon with a session to `box`, and a stream from its address.
abbrev one_session : Daemon
one_session = run_all init (connect (codes "box") 1 ∷ [])

abbrev from_box : Remote
from_box = record { peer_ip = ip; resolves_to_ip = λ h. true; reverse_host = none }

box_listed : has_text (hostnames one_session.registry) (codes "box") ≡ true
unfolding run_all hostnames step handle_connect get_mut modify or_insert text_eq
box_listed = refl

known_host_counted_example :
    let e = run_all (run_all one_session (refresh true ∷ [])) [] in
    let a = accept_from from_box (refresh true ∷ []) [] one_session in
    (key : Text) × (from_box.resolves_to_ip key ≡ true)
    × (hostnames a.registry ≡ hostnames e.registry)
    × ((j : Text)
        → inbound_at (get j a.registry) ≡ (
            if text_eq key j
            then usize_add (inbound_at (get j e.registry)) 1
            else inbound_at (get j e.registry)))
known_host_counted_example =
    known_host_counted from_box (refresh true ∷ []) [] one_session (codes "box") box_listed refl

-- Addresses as the octets behind a mark.
abbrev show_marked : IpAddr → Text
show_marked (v4 octets) = 4 ∷ octets
show_marked (v6 octets) = 6 ∷ octets

abbrev parse_marked : Text → Option IpAddr
parse_marked [] = none
parse_marked (mark ∷ octets) = if mark == 4 then some (v4 octets) else some (v6 octets)

parse_marked-show_marked : (ip : IpAddr) → parse_marked (show_marked ip) ≡ some ip
parse_marked-show_marked (v4 octets) = refl
parse_marked-show_marked (v6 octets) = refl

abbrev marked : Addresses
marked = record {
  parse_ip = parse_marked;
  show_ip = show_marked;
  parses_back = λ ip h. parse_marked-show_marked ip;
  to_string_lossy = λ bytes. bytes;
}

abbrev ours : IpAddr
ours = v4 (10 ∷ 0 ∷ 0 ∷ 7 ∷ [])

no_known_host :
    find_first
      (host_resolves_to_ip marked (λ host. none) ours)
      (hostnames (run_all init []).registry)
    ≡ none
unfolding find_first hostnames run_all
no_known_host = refl

no_name : reverse_dns_lookup marked true (λ a. none) ours ≡ none
unfolding reverse_dns_lookup
no_name = refl

name_trimmed :
    reverse_dns_lookup marked true (λ a. some (codes " box.lan\n" ++ 0 ∷ 7 ∷ [])) ours
    ≡ some (codes "box.lan")
unfolding reverse_dns_lookup trim until_nul
name_trimmed = refl

-- Two connections to a new daemon, the second one when DNS knows another host by the address.
unnamed_address_known_example :
    let d = run_all init [] in
    let later = λ (host : Text). some (ours ∷ []) in
    let a = accept_from (remote_at marked (λ host. none) true (λ a. none) ours) [] [] d in
    let c = run_all a (connect (codes "box") 81 ∷ []) in
    let e = run_all (run_all c []) [] in
    let b = accept_from (remote_at marked later true (λ a. none) ours) [] [] c in
    (has_text (hostnames a.registry) (show_marked ours) ≡ true)
    × (hostnames b.registry ≡ hostnames e.registry)
    × ((key : Text) × (host_resolves_to_ip marked later ours key ≡ true)
        × ((j : Text)
            → inbound_at (get j b.registry) ≡ (
                if text_eq key j
                then usize_add (inbound_at (get j e.registry)) 1
                else inbound_at (get j e.registry))))
unnamed_address_known_example =
    unnamed_address_known marked (λ host. none) (λ host. some (ours ∷ [])) true true (λ a. none)
      (λ a. none) ours [] [] (connect (codes "box") 81 ∷ []) [] [] (run_all init [])
      (refl, (omega arith, (omega arith, (omega arith, (omega arith, tt))))) no_known_host no_name
