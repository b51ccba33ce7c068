-- ===== src/Daemon/Attempts.antt =====
-- The `connecting` flag of src/daemon.rs is never left behind: while it is set, a task is in flight
-- whose next sections will clear it.
use tassh.Peer.{
  PeerState, get_or_create, get, get-get_mut, get-get_or_create, connected_hosts_without_sessions,
  hosts_with_sessions,
}
use tassh.Daemon.Sections.{
  track_pid, claim, probe_missed, pid_exit, register, dial_failed, connection_ended, clean_idle,
  revive, probe_lost, inbound_opened, inbound_closed, track_pids,
}
use tassh.Daemon.{
  Daemon, Task, watch, claiming, probing, dialing, forwarding, cleaning, listing, scanning,
  liveness, receiving, Event, connect, disconnect, refresh, discovered, accepted, run, init, step,
  run_all, pick, perform, on_peer, create, handle_connect, handle_pid_exit, discover_section,
  discover_host, refresh_peer_liveness, accept_inbound,
}
use tassh.Daemon.Tasks.{count, bit, count-pick, count-spawn_all}
use tassh.Prelude.{
  inl, inr, Option-cases, true, false, refl, Text, Option, Bool, text_eq, ◌≡◌, some, ◌<◌, none, ◌+◌,
  arith, text_eq_iff, text_eq_refl, List, ◌∷◌, ℕ, Option-cases, inl, [], inr, lookup,
}

-- A task that attempts to connect to a host.
abbrev pub attempts : Text → Task → Bool
attempts j (probing h) = text_eq h j
attempts j (dialing h) = text_eq h j
attempts j _ = false

abbrev pub connecting_at : Option PeerState → Bool
connecting_at none = false
connecting_at (some p) = p.connecting

-- Each host with the flag set has an attempt in flight.
pub record Attempted (d : Daemon) : Type 0 where
  pub at : (h : Text) → connecting_at (get h d.registry) ≡ true → 0 < count (attempts h) d.tasks

-- The same while a task is taken from the list.
abbrev Owed : Task → Daemon → Text → Type 0
Owed t d j =
    connecting_at (get j d.registry) ≡ true → 0 < bit (attempts j t) + count (attempts j) d.tasks

perform-Attempted :
    (t : Task) (b : Bool) (d : Daemon) (j : Text)
    → Owed t d j
    → connecting_at (get j (perform t b d).registry) ≡ true
    → 0 < count (attempts j) (perform t b d).tasks
unfolding perform claim probe_missed pid_exit register dial_failed connection_ended clean_idle
    revive probe_lost inbound_opened inbound_closed
perform-Attempted (watch h pid) b d j o c =
    ground (arith, get-get_mut h j (pid_exit pid) d.registry)
perform-Attempted (claiming h) b d j o c = ground (
  arith,
  get-get_mut h j (λ p. (claim p).0) (get_or_create h d.registry),
  get-get_or_create h j d.registry,
  get-get_or_create h h d.registry,
  text_eq_iff h j,
  text_eq_refl h,
)
perform-Attempted (probing h) true d j o c = ground arith
perform-Attempted (probing h) false d j o c =
    ground (arith, get-get_mut h j probe_missed d.registry)
perform-Attempted (dialing h) true d j o c =
    ground (arith, get-get_mut h j (λ p. (register d.next_channel p).0) d.registry)
perform-Attempted (dialing h) false d j o c = ground (arith, get-get_mut h j dial_failed d.registry)
perform-Attempted (forwarding h n) b d j o c =
    ground (arith, get-get_mut h j connection_ended d.registry)
perform-Attempted (cleaning h) b d j o c = ground (arith, get-get_mut h j clean_idle d.registry)
perform-Attempted (listing check) b d j o c = ground (
  arith,
  count-spawn_all (attempts j) (λ h. scanning h check) (hosts_with_sessions d.registry) d.tasks
      (λ _. refl),
)
perform-Attempted (scanning h check) b d j o c = ground arith
perform-Attempted (liveness h true) true d j o c = ground arith
perform-Attempted (liveness h false) true d j o c =
    ground (arith, get-get_mut h j (λ p. (revive p).0) d.registry, text_eq_iff h j)
perform-Attempted (liveness h was) false d j o c =
    ground (arith, get-get_mut h j (probe_lost was) d.registry)
perform-Attempted (receiving h) b d j o c =
    ground (arith, get-get_mut h j inbound_closed d.registry)

track_pids-connecting :
    (pids : List ℕ) (p : PeerState) → (track_pids pids p).0.connecting ≡ p.connecting
unfolding track_pids
track_pids-connecting [] p = refl
track_pids-connecting (pid ∷ pids) p =
    ground (arith, track_pids-connecting pids (track_pid pid p).0)

-- Whatever happens next, the flag stays accounted for.
pub step-Attempted : (d : Daemon) (e : Event) → Attempted d → Attempted (step d e)
unfolding step handle_connect handle_pid_exit discover_host refresh_peer_liveness accept_inbound
    create on_peer track_pid pid_exit inbound_opened claim
step-Attempted d (connect h pid) v = record {
  at = λ j c. ground (
    arith,
    get-get_mut h j (λ p. (track_pid pid p).0) (get_or_create h d.registry),
    get-get_or_create h j d.registry,
    v.at j,
  );
}
step-Attempted d (disconnect h pid) v = record {
  at = λ j c. ground (arith, get-get_mut h j (pid_exit pid) d.registry, v.at j);
}
step-Attempted d (refresh check) v = record {
  at = λ j c. ground (
    arith,
    count-spawn_all (attempts j) cleaning (connected_hosts_without_sessions d.registry)
        (listing check ∷ d.tasks) (λ _. refl),
    v.at j,
  );
}
step-Attempted d (discovered h pids) v = record {
  at = λ j c. elim (Option-cases (get h (get_or_create h d.registry))) [
    | inl q ↦ ground (arith, get-get_or_create h h d.registry, text_eq_refl h)
    | inr (s, q) ↦ ground (
      arith,
      get-get_mut h j (λ p. (discover_section pids p).0) (get_or_create h d.registry),
      get-get_or_create h j d.registry,
      text_eq_iff h j,
      track_pids-connecting pids s,
      count-spawn_all (attempts j) (watch h) (track_pids pids s).1 d.tasks (λ _. refl),
      count-spawn_all (attempts j) (watch h) (track_pids pids s).1 (probing h ∷ d.tasks)
          (λ _. refl),
      v.at j,
    )
  ];
}
step-Attempted d (accepted h) v = record {
  at = λ j c. ground (
    arith,
    get-get_mut h j inbound_opened (get_or_create h d.registry),
    get-get_or_create h j d.registry,
    v.at j,
  );
}
step-Attempted d (run n b) v = elim (Option-cases (pick n d.tasks)) [
  | inl q ↦ rw (q, step) v
  | inr ((t, rest), q) ↦
      rw (q, step)
        (record {
          at = λ j.
              perform-Attempted t b (record d { tasks = rest }) j
                (λ c. rw (← count-pick (attempts j) n d.tasks t rest q) (v.at j c));
        })
]

run_all-Attempted : (d : Daemon) (es : List Event) → Attempted d → Attempted (run_all d es)
unfolding run_all
run_all-Attempted d [] v = v
run_all-Attempted d (e ∷ es) v = run_all-Attempted (step d e) es (step-Attempted d e v)

-- After any history of a new daemon, a host whose `connecting` flag is set has a task in flight that
-- probes it or dials it.
pub connecting_attempted :
    (es : List Event) (h : Text)
    → connecting_at (get h (run_all init es).registry) ≡ true
    → 0 < count (attempts h) (run_all init es).tasks
connecting_attempted es h =
    (run_all-Attempted init es (record { at = λ j c. unfold get lookup in cc c })).at h
