-- ===== src/Daemon/Watched.antt =====
-- The registry of src/daemon.rs against the log of the sessions.
use tassh.Daemon.Log.{Action, opened, is_open, open_all, exit_of, record_event, log_of, watched_at}
use tassh.Peer.{fresh, PeerState, get, get_or_create, get-get_mut, get-get_or_create}
use tassh.Daemon.Sections.{
  contains, remove_pid, track_pid, claim, probe_missed, pid_exit, register, dial_failed,
  connection_ended, clean_idle, revive, probe_lost, inbound_opened, inbound_closed, track_pids,
}
use tassh.Daemon.{
  Daemon, Task, watch, claiming, probing, dialing, forwarding, cleaning, listing, scanning,
  liveness, receiving, Event, connect, disconnect, refresh, discovered, accepted, run, init, step,
  run_all, pick, perform, on_peer, create, handle_connect, handle_pid_exit, discover_section,
  discover_host, refresh_peer_liveness, accept_inbound,
}
use tassh.Daemon.Valid.{IsValid, Distinct}
use tassh.Daemon.Invariant.{PeersValid, InRange, init-PeersValid, step-PeersValid}
use tassh.Prelude.{
  ℕ, Text, List, Bool, [], ◌≡◌, some, false, text_eq, ◌&&◌, ◌==◌, ◌||◌, not, arith, Option-cases,
  All, inl, refl, lookup, inr, ◌∷◌, text_eq_iff, ◌∙◌, text_eq_refl, ap, sym, true,
}

-- The registry holds exactly the sessions that are open.
pub record Holds (d : Daemon) (log : List Action) : Type 0 where
  pub at : (h : Text) (pid : ℕ) → contains (watched_at (get h d.registry)) pid ≡ is_open log h pid

contains-remove_pid :
    (a b : ℕ) (xs : List ℕ)
    → Distinct xs
    → contains (remove_pid a xs) b ≡ (not (a == b) && contains xs b)
unfolding contains remove_pid
contains-remove_pid a b [] d = ground arith
contains-remove_pid a b (x ∷ xs) (out, d) = ground (arith, contains-remove_pid a b xs d)

pid_exit-contains :
    (pid q : ℕ) (p : PeerState)
    → IsValid p
    → contains (pid_exit pid p).watched_pids q ≡ (not (pid == q) && contains p.watched_pids q)
unfolding pid_exit
pid_exit-contains pid q p v = ground (arith, contains-remove_pid pid q p.watched_pids v.distinct)

track_pid-contains :
    (pid q : ℕ) (p : PeerState)
    → contains (track_pid pid p).0.watched_pids q ≡ (pid == q || contains p.watched_pids q)
unfolding track_pid contains
track_pid-contains pid q p = ground arith

track_pids-contains :
    (pids : List ℕ) (q : ℕ) (p : PeerState)
    → contains (track_pids pids p).0.watched_pids q ≡ (contains pids q || contains p.watched_pids q)
unfolding track_pids contains
track_pids-contains [] q p = refl
track_pids-contains (pid ∷ pids) q p =
    ground (arith, track_pid-contains pid q p, track_pids-contains pids q (track_pid pid p).0)

-- The session that the next section of a task ends.
abbrev closes : Task → Text → ℕ → Bool
closes (watch h pid) j q = text_eq h j && pid == q
closes _ j q = false

perform-watched :
    (t : Task) (b : Bool) (d : Daemon) (j : Text) (q : ℕ)
    → PeersValid d.registry
    → contains (watched_at (get j (perform t b d).registry)) q
      ≡ (not (closes t j q) && contains (watched_at (get j d.registry)) q)
unfolding perform claim probe_missed register dial_failed connection_ended clean_idle revive
    probe_lost inbound_opened inbound_closed contains
perform-watched (watch h pid) b d j q w = elim (Option-cases (get j d.registry)) [
  | inl e ↦ ground (arith, get-get_mut h j (pid_exit pid) d.registry)
  | inr (s, e) ↦
      ground
        (arith, get-get_mut h j (pid_exit pid) d.registry, pid_exit-contains pid q s (w.at j s e))
]
perform-watched (claiming h) b d j q w = ground (
  arith,
  get-get_mut h j (λ p. (claim p).0) (get_or_create h d.registry),
  get-get_or_create h j d.registry,
  get-get_or_create h h d.registry,
  text_eq_iff h j,
  text_eq_refl h,
)
perform-watched (probing h) true d j q w = ground arith
perform-watched (probing h) false d j q w = ground (arith, get-get_mut h j probe_missed d.registry)
perform-watched (dialing h) true d j q w =
    ground (arith, get-get_mut h j (λ p. (register d.next_channel p).0) d.registry)
perform-watched (dialing h) false d j q w = ground (arith, get-get_mut h j dial_failed d.registry)
perform-watched (forwarding h n) b d j q w =
    ground (arith, get-get_mut h j connection_ended d.registry)
perform-watched (cleaning h) b d j q w = ground (arith, get-get_mut h j clean_idle d.registry)
perform-watched (listing check) b d j q w = ground arith
perform-watched (scanning h check) b d j q w = ground arith
perform-watched (liveness h true) true d j q w = ground arith
perform-watched (liveness h false) true d j q w =
    ground (arith, get-get_mut h j (λ p. (revive p).0) d.registry, text_eq_iff h j)
perform-watched (liveness h was) false d j q w =
    ground (arith, get-get_mut h j (probe_lost was) d.registry)
perform-watched (receiving h) b d j q w = ground (arith, get-get_mut h j inbound_closed d.registry)

pub is_open-open_all :
    (h : Text) (pids : List ℕ) (log : List Action) (j : Text) (q : ℕ)
    → is_open (open_all h pids log) j q ≡ ((text_eq h j && contains pids q) || is_open log j q)
unfolding is_open contains
is_open-open_all h [] log j q = ground arith
is_open-open_all h (pid ∷ pids) log j q =
    ground (arith, is_open-open_all h pids (opened h pid ∷ log) j q)

is_open-exit_of :
    (t : Task) (rest : List Task) (log : List Action) (j : Text) (q : ℕ)
    → is_open (exit_of (some (t, rest)) log) j q ≡ (not (closes t j q) && is_open log j q)
unfolding is_open
is_open-exit_of (watch h pid) rest log j q = refl
is_open-exit_of (claiming h) rest log j q = refl
is_open-exit_of (probing h) rest log j q = refl
is_open-exit_of (dialing h) rest log j q = refl
is_open-exit_of (forwarding h n) rest log j q = refl
is_open-exit_of (cleaning h) rest log j q = refl
is_open-exit_of (listing b) rest log j q = refl
is_open-exit_of (scanning h b) rest log j q = refl
is_open-exit_of (liveness h b) rest log j q = refl
is_open-exit_of (receiving h) rest log j q = refl

step-Holds :
    (d : Daemon) (e : Event) (log : List Action)
    → PeersValid d.registry
    → Holds d log
    → Holds (step d e) (record_event d e log)
unfolding step record_event is_open handle_connect handle_pid_exit discover_host
    refresh_peer_liveness accept_inbound create on_peer inbound_opened claim contains
step-Holds d (connect h pid) log w v = record {
  at = λ j q. elim (Option-cases (get j d.registry)) [
    | inl e ↦ ground (
      arith,
      get-get_mut h j (λ p. (track_pid pid p).0) (get_or_create h d.registry),
      get-get_or_create h j d.registry,
      track_pid-contains pid q fresh,
      v.at j q,
    )
    | inr (s, e) ↦ ground (
      arith,
      get-get_mut h j (λ p. (track_pid pid p).0) (get_or_create h d.registry),
      get-get_or_create h j d.registry,
      track_pid-contains pid q s,
      v.at j q,
    )
  ];
}
step-Holds d (disconnect h pid) log w v = record {
  at = λ j q. elim (Option-cases (get j d.registry)) [
    | inl e ↦ ground (arith, get-get_mut h j (pid_exit pid) d.registry, v.at j q)
    | inr (s, e) ↦ ground (
      arith,
      get-get_mut h j (pid_exit pid) d.registry,
      pid_exit-contains pid q s (w.at j s e),
      v.at j q,
    )
  ];
}
step-Holds d (refresh check) log w v = record { at = λ j q. v.at j q }
step-Holds d (discovered h pids) log w v = record {
  at = λ j q. elim (Option-cases (get j d.registry)) [
    | inl e ↦ ground (
      arith,
      get-get_mut h j (λ p. (discover_section pids p).0) (get_or_create h d.registry),
      get-get_or_create h j d.registry,
      track_pids-contains pids q fresh,
      is_open-open_all h pids log j q,
      v.at j q,
    )
    | inr (s, e) ↦ ground (
      arith,
      get-get_mut h j (λ p. (discover_section pids p).0) (get_or_create h d.registry),
      get-get_or_create h j d.registry,
      track_pids-contains pids q s,
      is_open-open_all h pids log j q,
      v.at j q,
    )
  ];
}
step-Holds d (accepted h) log w v = record {
  at = λ j q. ground (
    arith,
    get-get_mut h j inbound_opened (get_or_create h d.registry),
    get-get_or_create h j d.registry,
    v.at j q,
  );
}
step-Holds d (run n b) log w v = elim (Option-cases (pick n d.tasks)) [
  | inl q ↦ rw (q, step) v
  | inr ((t, rest), e) ↦ record {
    at = λ j q.
        rw (e, step)
          (perform-watched t b (record d { tasks = rest }) j q w
            ∙ ap (λ x. not (closes t j q) && x) (v.at j q)
            ∙ sym (is_open-exit_of t rest log j q));
  }
]

run_all-Holds :
    (d : Daemon) (es : List Event) (log : List Action)
    → All InRange es
    → PeersValid d.registry
    → Holds d log
    → Holds (run_all d es) (log_of d es log)
unfolding run_all log_of
run_all-Holds d [] log u w v = v
run_all-Holds d (e ∷ es) log (u, us) w v =
    run_all-Holds (step d e) es (record_event d e log) us (step-PeersValid d e u w)
      (step-Holds d e log w v)

-- After any history of a new daemon whose PIDs are `u32`s, the registry watches exactly the SSH
-- processes that are open in the log of that history: connected or found, and neither disconnected nor
-- exited since.
pub run_all_refines :
    (es : List Event) (h : Text) (pid : ℕ)
    → All InRange es
    → contains (watched_at (get h (run_all init es).registry)) pid
      ≡ is_open (log_of init es []) h pid
run_all_refines es h pid u =
    (run_all-Holds init es [] u init-PeersValid
        (record { at = λ j q. unfold get lookup contains is_open in refl })).at
      h pid
