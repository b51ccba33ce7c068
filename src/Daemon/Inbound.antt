-- ===== src/Daemon/Inbound.antt =====
-- Counting inbound connections in src/daemon.rs: `run_tcp_server` counts a connection up, and the task
-- that receives from it counts it down when it ends.
use tassh.Peer.{
  PeerState, usize_mod, fresh, get, get_mut, get_or_create, get-get_mut, get-get_or_create,
  connected_hosts_without_sessions, hosts_with_sessions,
}
use tassh.Daemon.Sections.{
  track_pid, claim, probe_missed, pid_exit, register, dial_failed, connection_ended, clean_idle,
  revive, probe_lost, inbound_opened, inbound_closed, track_pids,
}
use tassh.Daemon.{
  Daemon, Task, watch, claiming, probing, dialing, forwarding, cleaning, listing, scanning,
  liveness, receiving, Event, connect, disconnect, refresh, discovered, accepted, run, init, step,
  run_all, pick, perform, on_peer, create, handle_connect, handle_pid_exit, discover_section,
  discover_host, refresh_peer_liveness, accept_inbound, connect_tasks, discover_tasks,
}
use tassh.Daemon.Tasks.{count, bit, count-pick, count-spawn_all}
use tassh.Prelude.{
  ℕ, Text, Option, Bool, ◌≡◌, List, suc, text_eq, ◌≤◌, ◌+◌, arith, ◌<◌, some, ◌∷◌, false,
  text_eq_iff, ◌∙◌, none, text_eq_refl, sym, [], Option-cases, refl, true, inl, inr, length, subst,
  lookup,
}

-- The task that receives from a connection of a host.
abbrev pub receives : Text → Task → Bool
receives j (receiving h) = text_eq h j
receives j _ = false

abbrev pub inbound_at : Option PeerState → ℕ
inbound_at none = 0
inbound_at (some p) = p.inbound_connections

-- After n events: one count for each task, and no more tasks than events.
record InboundCounted (n : ℕ) (d : Daemon) : Type 0 where
  at : (h : Text) → inbound_at (get h d.registry) ≡ count (receives h) d.tasks
  le : (h : Text) → count (receives h) d.tasks ≤ n

perform-inbound :
    (t : Task) (b : Bool) (d : Daemon) (j : Text)
    → inbound_at (get j d.registry) ≡ bit (receives j t) + count (receives j) d.tasks
    → (inbound_at (get j (perform t b d).registry) ≡ count (receives j) d.tasks)
      × (count (receives j) (perform t b d).tasks ≡ count (receives j) d.tasks)
unfolding perform claim probe_missed pid_exit register dial_failed connection_ended clean_idle
    revive probe_lost inbound_opened inbound_closed
perform-inbound (watch h pid) b d j o = ground (arith, get-get_mut h j (pid_exit pid) d.registry)
perform-inbound (claiming h) b d j o = ground (
  arith,
  get-get_mut h j (λ p. (claim p).0) (get_or_create h d.registry),
  get-get_or_create h j d.registry,
  get-get_or_create h h d.registry,
  text_eq_iff h j,
  text_eq_refl h,
)
perform-inbound (probing h) true d j o = ground arith
perform-inbound (probing h) false d j o = ground (arith, get-get_mut h j probe_missed d.registry)
perform-inbound (dialing h) true d j o =
    ground (arith, get-get_mut h j (λ p. (register d.next_channel p).0) d.registry)
perform-inbound (dialing h) false d j o = ground (arith, get-get_mut h j dial_failed d.registry)
perform-inbound (forwarding h n) b d j o =
    ground (arith, get-get_mut h j connection_ended d.registry)
perform-inbound (cleaning h) b d j o = ground (arith, get-get_mut h j clean_idle d.registry)
perform-inbound (listing check) b d j o = ground (
  arith,
  count-spawn_all (receives j) (λ h. scanning h check) (hosts_with_sessions d.registry) d.tasks
      (λ _. refl),
)
perform-inbound (scanning h check) b d j o = ground arith
perform-inbound (liveness h true) true d j o = ground arith
perform-inbound (liveness h false) true d j o =
    ground (arith, get-get_mut h j (λ p. (revive p).0) d.registry, text_eq_iff h j)
perform-inbound (liveness h was) false d j o =
    ground (arith, get-get_mut h j (probe_lost was) d.registry)
perform-inbound (receiving h) b d j o = ground (arith, get-get_mut h j inbound_closed d.registry)

track_pid-inbound :
    (pid : ℕ) (p : PeerState) → (track_pid pid p).0.inbound_connections ≡ p.inbound_connections
unfolding track_pid
track_pid-inbound pid p = ground arith

track_pids-inbound :
    (pids : List ℕ) (p : PeerState)
    → (track_pids pids p).0.inbound_connections ≡ p.inbound_connections
unfolding track_pids
track_pids-inbound [] p = refl
track_pids-inbound (pid ∷ pids) p =
    track_pids-inbound pids (track_pid pid p).0 ∙ track_pid-inbound pid p

discover_section-inbound :
    (pids : List ℕ) (p : PeerState)
    → (discover_section pids p).0.inbound_connections ≡ p.inbound_connections
unfolding claim
discover_section-inbound pids p = ground (arith, track_pids-inbound pids p)

connect_tasks-receives :
    (h j : Text) (pid : ℕ) (o : Option (PeerState × Bool)) (ts : List Task)
    → count (receives j) (connect_tasks h pid o ts) ≡ count (receives j) ts
connect_tasks-receives h j pid none ts = refl
connect_tasks-receives h j pid (some (p, added)) ts = ground arith

discover_tasks-receives :
    (h j : Text) (o : Option (PeerState × List ℕ × Bool)) (ts : List Task)
    → count (receives j) (discover_tasks h o ts) ≡ count (receives j) ts
discover_tasks-receives h j none ts = refl
discover_tasks-receives h j (some (p, pids, connects)) ts = ground (
  arith,
  count-spawn_all (receives j) (watch h) pids ts (λ _. refl),
  count-spawn_all (receives j) (watch h) pids (probing h ∷ ts) (λ _. refl),
)

-- A section that leaves the inbound connections alone, on a peer that may be new.
created-inbound :
    (h j : Text) (f : PeerState → PeerState) (d : Daemon)
    → ((p : PeerState) → (f p).inbound_connections ≡ p.inbound_connections)
    → inbound_at (get j (get_mut h f (get_or_create h d.registry))) ≡ inbound_at (get j d.registry)
created-inbound h j f d keep = elim (Option-cases (get j d.registry)) [
  | inl e ↦ ground (
    arith,
    get-get_mut h j f (get_or_create h d.registry),
    get-get_or_create h j d.registry,
    keep fresh,
  )
  | inr (s, e) ↦ ground (
    arith,
    get-get_mut h j f (get_or_create h d.registry),
    get-get_or_create h j d.registry,
    keep s,
  )
]

refresh-receives :
    (j : Text) (check : Bool) (d : Daemon)
    → count (receives j) (refresh_peer_liveness check d).tasks ≡ count (receives j) d.tasks
unfolding refresh_peer_liveness
refresh-receives j check d = omega (
  arith,
  count-spawn_all (receives j) cleaning (connected_hosts_without_sessions d.registry)
      (listing check ∷ d.tasks) (λ _. refl),
)

-- The state after an event that leaves the counts and the receiving tasks alone.
kept :
    (n : ℕ) (d e : Daemon)
    → ((j : Text) → inbound_at (get j e.registry) ≡ inbound_at (get j d.registry))
    → ((j : Text) → count (receives j) e.tasks ≡ count (receives j) d.tasks)
    → InboundCounted n d
    → InboundCounted (suc n) e
kept n d e same tasks v = record {
  at = λ j. same j ∙ v.at j ∙ sym (tasks j);
  le = λ j. omega (arith, tasks j, v.le j);
}

step-InboundCounted :
    (n : ℕ) (d : Daemon) (e : Event)
    → suc n < usize_mod
    → InboundCounted n d
    → InboundCounted (suc n) (step d e)
unfolding step handle_connect handle_pid_exit discover_host refresh_peer_liveness accept_inbound
    create on_peer pid_exit inbound_opened claim
step-InboundCounted n d (connect h pid) u v =
    kept n d _ (λ j. created-inbound h j _ d (track_pid-inbound pid))
      (λ j. connect_tasks-receives h j pid _ d.tasks) v
step-InboundCounted n d (disconnect h pid) u v =
    kept n d _ (λ j. ground (arith, get-get_mut h j (pid_exit pid) d.registry)) (λ j. refl) v
step-InboundCounted n d (refresh check) u v =
    kept n d _ (λ j. refl) (λ j. refresh-receives j check d) v
step-InboundCounted n d (discovered h pids) u v =
    kept n d _ (λ j. created-inbound h j _ d (discover_section-inbound pids))
      (λ j. discover_tasks-receives h j _ d.tasks) v
step-InboundCounted n d (accepted h) u v = record {
  at = λ j. ground (
    arith,
    get-get_mut h j inbound_opened (get_or_create h d.registry),
    get-get_or_create h j d.registry,
    v.at j,
    v.le j,
  );
  le = λ j. ground (arith, v.le j);
}
step-InboundCounted n d (run k b) u v = elim (Option-cases (pick k d.tasks)) [
  | inl q ↦ record {
    at = λ j. rw (q, step) (v.at j);
    le = λ j. rw (q, step) (omega (arith, v.le j));
  }
  | inr ((t, rest), q) ↦ record {
    at = λ j.
        let after =
          perform-inbound t b (record d { tasks = rest }) j
            (v.at j ∙ count-pick (receives j) k d.tasks t rest q) in
        rw (q, step) (after.0 ∙ sym after.1);
    le = λ j.
        let after =
          perform-inbound t b (record d { tasks = rest }) j
            (v.at j ∙ count-pick (receives j) k d.tasks t rest q) in
        rw (q, step) (omega (arith, after.1, v.le j, count-pick (receives j) k d.tasks t rest q));
  }
]

run_all-InboundCounted :
    (n : ℕ) (d : Daemon) (es : List Event)
    → n + length es < usize_mod
    → InboundCounted n d
    → InboundCounted (n + length es) (run_all d es)
unfolding run_all
run_all-InboundCounted n d [] u v = subst (λ k. InboundCounted k d) (omega arith) v
run_all-InboundCounted n d (e ∷ es) u v =
    subst (λ k. InboundCounted k (run_all (step d e) es)) (omega arith)
      (run_all-InboundCounted (suc n) (step d e) es (omega arith)
        (step-InboundCounted n d e (omega arith) v))

-- After any history of a new daemon of fewer than 2^64 events, the inbound connections that are
-- counted for a host are the tasks that receive from it.
pub inbound_connections_exact :
    (es : List Event) (h : Text)
    → length es < usize_mod
    → inbound_at (get h (run_all init es).registry) ≡ count (receives h) (run_all init es).tasks
inbound_connections_exact es h u =
    (run_all-InboundCounted 0 init es (omega arith)
        (record { at = λ j. unfold get lookup in refl; le = λ j. omega arith })).at
      h

-- And these are no more than the events.
pub inbound_connections-le :
    (es : List Event) (h : Text)
    → length es < usize_mod
    → count (receives h) (run_all init es).tasks ≤ length es
inbound_connections-le es h u = omega (
  arith,
  (run_all-InboundCounted 0 init es (omega arith)
        (record { at = λ j. unfold get lookup in refl; le = λ j. omega arith })).le
      h,
)
