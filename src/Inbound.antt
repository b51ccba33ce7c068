-- ===== src/Inbound.antt =====
-- src/daemon.rs: the registry key of an inbound connection.
-- The two resolvers are the system's: whether a host name resolves to the address of the peer, and the
-- name that reverse DNS gives the address. `listed` and `relisted` are the keys of the registry at the
-- two moments when the code lists them.
pub mod Keys
pub mod Accept
pub mod Resolve
pub mod Unnamed
pub mod Known
mod Examples
use tassh.Strings.{before_first}
use tassh.Ssh.{normalize_peer_hostname}
use tassh.Prelude.{ℕ, Text, Bool, Option, List, text_eq, some, none, ◌||◌, ◌∷◌, if◌then◌else◌, []}

-- The loops that return the first host that passes a test.
unfoldable pub find_first : (Text → Bool) → List Text → Option Text
find_first p [] = none
find_first p (host ∷ hosts) = let rest = find_first p hosts in if p host then some host else rest

abbrev short : Text → Text
short = before_first b'.'

-- The same host, by its name or by its first label.
unfoldable pub is_variant : Text → Text → Bool
unfolding normalize_peer_hostname before_first
is_variant normalized known =
    let known_norm = normalize_peer_hostname known in
    text_eq known_norm normalized
    || text_eq (short known_norm) normalized
    || text_eq known_norm (short normalized)
    || text_eq (short known_norm) (short normalized)

abbrev or_name : Text → Option Text → Text
or_name name none = name
or_name name (some known) = known

-- `peer_ip` is the address as a text.
unfoldable pub resolve_inbound_peer_key :
    (Text → Bool) → Option Text → Text → List Text → List Text → Text
unfolding find_first is_variant
resolve_inbound_peer_key resolves_to_ip reverse_host peer_ip listed relisted =
    elim (find_first resolves_to_ip listed) [
      | some existing ↦ existing
      | none ↦ elim reverse_host [
        | none ↦ peer_ip
        | some raw ↦
            let normalized = normalize_peer_hostname raw in
            or_name normalized (find_first (is_variant normalized) relisted)
      ]
    ]
