-- ===== src/Inbound/Resolve.antt =====
-- src/daemon.rs: `host_resolves_to_ip`, `reverse_dns_lookup` and `reverse_dns_lookup_blocking`.
-- DNS and the C library belong to the system: the answers of `lookup_host` and of `getnameinfo` are
-- arguments. The text of an address belongs to the standard library of Rust and is the interface
-- `Addresses`, as is the text that `to_string_lossy` makes of bytes.
use tassh.Strings.{trim, is_empty}
use tassh.Inbound.Accept.{Remote}
use tassh.Prelude.{
  ℕ, Text, Bool, Option, List, All, some, none, true, false, [], ◌∷◌, ◌≡◌, ◌<◌, ◌==◌, ◌||◌,
  if◌then◌else◌, text_eq, length,
}

-- An address by its octets.
pub data IpAddr : Type 0 where
  v4 v6 : List ℕ → IpAddr

abbrev pub IsAddress : IpAddr → Type 0
IsAddress (v4 octets) = (length octets ≡ 4) × All (λ b. b < 256) octets
IsAddress (v6 octets) = (length octets ≡ 16) × All (λ b. b < 256) octets

abbrev pub same_address : IpAddr → IpAddr → Bool
same_address (v4 a) (v4 b) = text_eq a b
same_address (v6 a) (v6 b) = text_eq a b
same_address _ _ = false

pub record Addresses : Type 0 where
  -- parse::<IpAddr>() and to_string()
  pub parse_ip : Text → Option IpAddr
  pub show_ip : IpAddr → Text
  pub parses_back : (ip : IpAddr) → IsAddress ip → parse_ip (show_ip ip) ≡ some ip
  -- CStr::to_string_lossy()
  pub to_string_lossy : List ℕ → Text

abbrev pub is_address : Option IpAddr → IpAddr → Bool
is_address none ip = false
is_address (some other) ip = same_address other ip

-- addrs.into_iter().any(|addr| addr.ip() == peer_ip)
unfoldable pub any_address : List IpAddr → IpAddr → Bool
any_address [] ip = false
any_address (addr ∷ addrs) ip = same_address addr ip || any_address addrs ip

abbrev pub resolved_to : Option (List IpAddr) → IpAddr → Bool
resolved_to none ip = false
resolved_to (some addrs) ip = any_address addrs ip

-- The socket address that is passed to `getnameinfo`: the octets as they stand in memory, which is what
-- `from_ne_bytes` keeps, with port 0.
pub data SockAddr : Type 0 where
  sockaddr_in sockaddr_in6 : List ℕ → SockAddr

abbrev pub sockaddr_of : IpAddr → SockAddr
sockaddr_of (v4 octets) = sockaddr_in octets
sockaddr_of (v6 octets) = sockaddr_in6 octets

-- CStr::from_ptr: the bytes before the first NUL.
unfoldable pub until_nul : List ℕ → List ℕ
until_nul [] = []
until_nul (b ∷ bytes) = let rest = until_nul bytes in if b == 0 then [] else b ∷ rest

abbrev non_empty_name : Text → Option Text
non_empty_name host = if is_empty host then none else some host

module _ (A : Addresses) where
  open A use {parse_ip, show_ip, to_string_lossy}

  unfoldable pub host_resolves_to_ip : (Text → Option (List IpAddr)) → IpAddr → Text → Bool
  unfolding any_address
  host_resolves_to_ip lookup_host peer_ip hostname =
      if is_address (parse_ip hostname) peer_ip
      then true
      else resolved_to (lookup_host hostname) peer_ip

  -- `getnameinfo` fails, or fills the buffer.
  unfoldable pub reverse_dns_lookup_blocking : (SockAddr → Option (List ℕ)) → IpAddr → Option Text
  unfolding until_nul trim
  reverse_dns_lookup_blocking getnameinfo peer_ip = elim (getnameinfo (sockaddr_of peer_ip)) [
    | none ↦ none
    | some host_buf ↦ non_empty_name (trim (to_string_lossy (until_nul host_buf)))
  ]

  -- `joins`: whether the blocking task comes to its end.
  unfoldable pub reverse_dns_lookup : Bool → (SockAddr → Option (List ℕ)) → IpAddr → Option Text
  unfolding reverse_dns_lookup_blocking
  reverse_dns_lookup joins getnameinfo peer_ip =
      if joins then reverse_dns_lookup_blocking getnameinfo peer_ip else none

  -- An accepted stream from the address.
  unfoldable pub remote_at :
      (Text → Option (List IpAddr)) → Bool → (SockAddr → Option (List ℕ)) → IpAddr → Remote
  unfolding host_resolves_to_ip reverse_dns_lookup
  remote_at lookup_host joins getnameinfo peer_ip = record {
    peer_ip = show_ip peer_ip;
    resolves_to_ip = host_resolves_to_ip lookup_host peer_ip;
    reverse_host = reverse_dns_lookup joins getnameinfo peer_ip;
  }
