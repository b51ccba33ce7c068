-- ===== src/Daemon/Hosts.antt =====
-- The hosts of the registry of src/daemon.rs: no event removes one.
use tassh.Peer.{
  PeerState, PeerRegistry, get_or_create, get, get_mut, get-get_mut, get-get_or_create,
}
use tassh.Daemon.Sections.{
  track_pid, claim, probe_missed, pid_exit, register, dial_failed, connection_ended, clean_idle,
  revive, probe_lost, inbound_opened, inbound_closed,
}
use tassh.Daemon.{
  Daemon, Task, watch, claiming, probing, dialing, forwarding, cleaning, listing, scanning,
  liveness, receiving, Event, connect, disconnect, refresh, discovered, accepted, run, step,
  run_all, pick, perform, on_peer, create, handle_connect, handle_pid_exit, discover_section,
  discover_host, refresh_peer_liveness, accept_inbound,
}
use tassh.Prelude.{
  Text, Bool, List, true, is_some, refl, ◌≡◌, [], ◌∷◌, arith, inl, inr, Option-cases, false,
}

abbrev Stays : Text → PeerRegistry → PeerRegistry → Type 0
Stays j r s = is_some (get j r) ≡ true → is_some (get j s) ≡ true

get_mut-Stays :
    (h j : Text) (f : PeerState → PeerState) (r : PeerRegistry) → Stays j r (get_mut h f r)
get_mut-Stays h j f r k = ground (arith, get-get_mut h j f r, k)

create-Stays : (h j : Text) (r : PeerRegistry) → Stays j r (get_or_create h r)
create-Stays h j r k = ground (arith, get-get_or_create h j r, k)

perform-Stays :
    (t : Task) (b : Bool) (d : Daemon) (j : Text) → Stays j d.registry (perform t b d).registry
unfolding perform
perform-Stays (watch h pid) b d j k = get_mut-Stays h j (pid_exit pid) d.registry k
perform-Stays (claiming h) b d j k =
    get_mut-Stays h j (λ p. (claim p).0) (get_or_create h d.registry)
      (create-Stays h j d.registry k)
perform-Stays (probing h) true d j k = k
perform-Stays (probing h) false d j k = get_mut-Stays h j probe_missed d.registry k
perform-Stays (dialing h) true d j k =
    get_mut-Stays h j (λ p. (register d.next_channel p).0) d.registry k
perform-Stays (dialing h) false d j k = get_mut-Stays h j dial_failed d.registry k
perform-Stays (forwarding h c) b d j k = get_mut-Stays h j connection_ended d.registry k
perform-Stays (cleaning h) b d j k = get_mut-Stays h j clean_idle d.registry k
perform-Stays (listing check) b d j k = k
perform-Stays (scanning h check) b d j k = k
perform-Stays (liveness h true) true d j k = k
perform-Stays (liveness h false) true d j k = get_mut-Stays h j (λ p. (revive p).0) d.registry k
perform-Stays (liveness h was) false d j k = get_mut-Stays h j (probe_lost was) d.registry k
perform-Stays (receiving h) b d j k = get_mut-Stays h j inbound_closed d.registry k

step-Stays : (d : Daemon) (e : Event) (j : Text) → Stays j d.registry (step d e).registry
unfolding step handle_connect handle_pid_exit discover_host refresh_peer_liveness accept_inbound
    create on_peer
step-Stays d (connect h pid) j k =
    get_mut-Stays h j (λ p. (track_pid pid p).0) (get_or_create h d.registry)
      (create-Stays h j d.registry k)
step-Stays d (disconnect h pid) j k = get_mut-Stays h j (pid_exit pid) d.registry k
step-Stays d (refresh check) j k = k
step-Stays d (discovered h pids) j k =
    get_mut-Stays h j (λ p. (discover_section pids p).0) (get_or_create h d.registry)
      (create-Stays h j d.registry k)
step-Stays d (accepted h) j k =
    get_mut-Stays h j inbound_opened (get_or_create h d.registry) (create-Stays h j d.registry k)
step-Stays d (run n b) j k = elim (Option-cases (pick n d.tasks)) [
  | inl q ↦ rw (q, step) k
  | inr ((t, rest), q) ↦ rw (q, step) (perform-Stays t b (record d { tasks = rest }) j k)
]

pub run_all-Stays :
    (d : Daemon) (es : List Event) (j : Text)
    → is_some (get j d.registry) ≡ true
    → is_some (get j (run_all d es).registry) ≡ true
unfolding run_all
run_all-Stays d [] j k = k
run_all-Stays d (e ∷ es) j k = run_all-Stays (step d e) es j (step-Stays d e j k)

pub registry-accept_inbound :
    (h : Text) (d : Daemon)
    → (accept_inbound h d).registry ≡ get_mut h inbound_opened (get_or_create h d.registry)
unfolding accept_inbound create on_peer
registry-accept_inbound h d = refl
