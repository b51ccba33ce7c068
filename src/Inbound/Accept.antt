-- ===== src/Inbound/Accept.antt =====
-- src/daemon.rs: the accept loop of `run_tcp_server`, with the registry that it shares.
use tassh.Peer.{hostnames}
use tassh.Daemon.{run_all, Daemon, Event, accept_inbound, step}
use tassh.Discovery.{resolve_tailscale_ip}
use tassh.Inbound.{resolve_inbound_peer_key}
use tassh.Strings.Numbers.{to_string}
use tassh.Prelude.{ℕ, Text, Bool, List, Option, some, none, [], ◌∷◌, ◌++◌, codes, if◌then◌else◌}

-- An accepted stream: its address, and what the resolvers answer.
pub record Remote : Type 0 where
  pub peer_ip : Text
  pub resolves_to_ip : Text → Bool
  pub reverse_host : Option Text

-- One accepted stream, with the events of the other tasks while the address is resolved over the first
-- listing of the hosts, and between the second listing and the count.
unfoldable pub accept_from : Remote → List Event → List Event → Daemon → Daemon
accept_from remote resolving resolved d =
    let relisted = run_all d resolving in
    accept_inbound
      (resolve_inbound_peer_key remote.resolves_to_ip remote.reverse_host remote.peer_ip
        (hostnames d.registry) (hostnames relisted.registry))
      (run_all relisted resolved)

-- What `accept` returns, and the events of the other tasks meanwhile.
pub data Arrival : Type 0 where
  stream : Remote → List Event → List Event → Arrival
  accept_failed : Arrival
  meanwhile : Event → Arrival

pub data ServerError : Type 0 where
  no_address bind_failed accept_error : ServerError

unfoldable pub accept_all : List Arrival → Daemon → Daemon × Option ServerError
unfolding accept_from
accept_all [] d = (d, none)
accept_all (stream remote resolving resolved ∷ rest) d =
    accept_all rest (accept_from remote resolving resolved d)
accept_all (meanwhile e ∷ rest) d = accept_all rest (step d e)
accept_all (accept_failed ∷ rest) d = (d, some accept_error)

-- `output` is what `tailscale ip -4` prints, if it can be run, and `bind` whether an address is free.
unfoldable pub run_tcp_server :
    ℕ → Option Text → (Text → Bool) → List Arrival → Daemon → Daemon × Option ServerError
unfolding accept_all to_string
run_tcp_server port output bind arrivals d = elim (resolve_tailscale_ip output) [
  | none ↦ (d, some no_address)
  | some bind_ip ↦
      if bind (bind_ip ++ codes ":" ++ to_string port)
      then accept_all arrivals d
      else (d, some bind_failed)
]
