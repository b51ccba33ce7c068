-- ===== src/Discovery/Examples.antt =====
-- A discovery with one session, one line of another program, and a session to the machine itself.
use tassh.Peer.{list_peers, get}
use tassh.Peer.Unordered.{view}
use tassh.Daemon.{accepted, Event, discovered, init, run_all}
use tassh.Discovery.{
  group_lines, host_events, discover_existing_ssh_sessions, discover_local_aliases,
}
use tassh.Discovery.Order.{discovery_any_order}
use tassh.Prelude.{
  ℕ, HashMap, KeysDistinct, SameMap, SameMap-swap, Perm, lookup, List, Text, none, some, codes, ◌≡◌,
  ◌∷◌, arith, [], refl, text_eq, modify, or_insert,
}
use tassh.Strings.{to_ascii_lowercase, trim, before_first, strip_prefix}
use tassh.Strings.Words.{lines}
use tassh.Daemon.Sections.{contains}
use tassh.Daemon.Log.{watched_at}
use tassh.Discovery.Grouping.{mentions}
use tassh.Discovery.Startup.{discovery_watches}
use tassh.Discovery.Ascii.{discovery_completes}

abbrev aliases : List Text
aliases = codes "localhost" ∷ codes "hub" ∷ []

abbrev stdout : Text
stdout = codes "81 ssh -p 22 me@Box\n9 sshd: me\n7 ssh hub\n"

aliases_found :
    discover_local_aliases none (some (codes "Hub.lan\n"))
    ≡ codes "localhost" ∷ codes "127.0.0.1" ∷ codes "hub.lan" ∷ codes "hub" ∷ []
unfolding discover_local_aliases
aliases_found = refl

one_session :
    discover_existing_ssh_sessions aliases (some stdout)
    ≡ some (discovered (codes "box") (81 ∷ []) ∷ [])
unfolding discover_existing_ssh_sessions text_eq to_ascii_lowercase trim before_first strip_prefix
    modify or_insert
one_session = refl

discovery_watches_example :
    contains
      (watched_at
        (get (codes "box") (run_all init (discovered (codes "box") (81 ∷ []) ∷ [])).registry))
      81
    ≡ mentions aliases (lines stdout) (codes "box") 81
discovery_watches_example =
    discovery_watches aliases stdout (codes "box") 81 (discovered (codes "box") (81 ∷ []) ∷ [])
      one_session

discovery_completes_example :
    (es : List Event) × (discover_existing_ssh_sessions aliases (some stdout) ≡ some es)
discovery_completes_example = discovery_completes aliases stdout (omega arith)

-- Two hosts, in both orders.
abbrev two_hosts : Text
two_hosts = codes "81 ssh box\n82 ssh den\n"

abbrev box_first : HashMap (List ℕ)
box_first = (codes "box", 81 ∷ []) ∷ (codes "den", 82 ∷ []) ∷ []

abbrev den_first : HashMap (List ℕ)
den_first = (codes "den", 82 ∷ []) ∷ (codes "box", 81 ∷ []) ∷ []

two_grouped : group_lines aliases (lines two_hosts) [] ≡ some box_first
unfolding group_lines text_eq to_ascii_lowercase trim before_first strip_prefix modify or_insert
    lines
two_grouped = refl

den_first-KeysDistinct : KeysDistinct den_first
unfolding lookup text_eq
den_first-KeysDistinct = (refl, (refl, tt))

same_hosts : SameMap box_first den_first
same_hosts = SameMap-swap (codes "box") (codes "den") (81 ∷ []) (82 ∷ []) [] (λ e. ground arith)

discovery_any_order_example :
    let d = run_all init (accepted (codes "den") ∷ []) in
    let r = (run_all d (host_events box_first)).registry in
    let s = (run_all d (host_events den_first)).registry in
    (view r ≡ view s) × Perm (list_peers r) (list_peers s)
discovery_any_order_example =
    discovery_any_order (accepted (codes "den") ∷ []) aliases two_hosts box_first den_first (tt, tt)
      two_grouped den_first-KeysDistinct same_hosts
