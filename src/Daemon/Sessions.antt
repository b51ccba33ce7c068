-- ===== src/Daemon/Sessions.antt =====
-- Counting SSH sessions in src/daemon.rs: the count of a peer is the number of watched processes,
-- as long as no Disconnect message arrives.
use tassh.Peer.{
  PeerState, get_or_create, get, get-get_mut, get-get_or_create, connected_hosts_without_sessions,
  hosts_with_sessions,
}
use tassh.Daemon.Sections.{
  track_pid, claim, probe_missed, pid_exit, register, dial_failed, connection_ended, clean_idle,
  revive, probe_lost, inbound_opened, inbound_closed, track_pids,
}
use tassh.Daemon.{
  Daemon, Task, watch, claiming, probing, dialing, forwarding, cleaning, listing, scanning,
  liveness, receiving, Event, connect, disconnect, refresh, discovered, accepted, run, init, step,
  run_all, pick, perform, on_peer, create, handle_connect, handle_pid_exit, discover_section,
  discover_host, refresh_peer_liveness, accept_inbound, spawn_all,
}
use tassh.Daemon.Tasks.{count, bit, count-pick, count-spawn_all, count-spawn_each}
use tassh.Daemon.Valid.{IsValid, pid_mod, session_count-le, track_pid-IsValid, fresh-IsValid}
use tassh.Daemon.Invariant.{
  PeersValid, InRange, init-PeersValid, step-PeersValid, get_or_create-PeersValid,
  run_all-PeersValid,
}
use tassh.Prelude.{
  ℕ, true, false, refl, inl, inr, Option-cases, lookup, Text, Option, ◌<◌, Bool, ◌≡◌, List, arith,
  text_eq, All, ◌+◌, text_eq_iff, some, text_eq_refl, length, none, ◌∙◌, [], if◌then◌else◌, ◌∷◌,
  Bool-cases, ◌≤◌,
}

-- The task that waits for a process of a session to a host.
abbrev pub watches : Text → Task → Bool
watches j (watch h pid) = text_eq h j
watches j _ = false

abbrev pub sessions_at : Option PeerState → ℕ
sessions_at none = 0
sessions_at (some p) = p.session_count

-- No message ends a session ahead of its process, and PIDs are `u32`s.
abbrev pub IsQuiet : Event → Type 0
IsQuiet (disconnect h pid) = ⊥
IsQuiet (connect h pid) = pid < pid_mod
IsQuiet (discovered h pids) = All (λ pid. pid < pid_mod) pids
IsQuiet _ = Unit

pub IsQuiet-InRange : (e : Event) → IsQuiet e → InRange e
IsQuiet-InRange (disconnect h pid) q = tt
IsQuiet-InRange (connect h pid) q = q
IsQuiet-InRange (discovered h pids) q = q
IsQuiet-InRange (refresh b) q = tt
IsQuiet-InRange (accepted h) q = tt
IsQuiet-InRange (run n b) q = tt

pub record Counted (d : Daemon) : Type 0 where
  pub at : (h : Text) → sessions_at (get h d.registry) ≡ count (watches h) d.tasks

perform-Counted :
    (t : Task) (b : Bool) (d : Daemon) (j : Text)
    → sessions_at (get j d.registry) ≡ bit (watches j t) + count (watches j) d.tasks
    → sessions_at (get j (perform t b d).registry) ≡ count (watches j) (perform t b d).tasks
unfolding perform claim probe_missed pid_exit register dial_failed connection_ended clean_idle
    revive probe_lost inbound_opened inbound_closed
perform-Counted (watch h pid) b d j o = ground (arith, get-get_mut h j (pid_exit pid) d.registry)
perform-Counted (claiming h) b d j o = ground (
  arith,
  get-get_mut h j (λ p. (claim p).0) (get_or_create h d.registry),
  get-get_or_create h j d.registry,
  get-get_or_create h h d.registry,
  text_eq_iff h j,
  text_eq_refl h,
)
perform-Counted (probing h) true d j o = ground arith
perform-Counted (probing h) false d j o = ground (arith, get-get_mut h j probe_missed d.registry)
perform-Counted (dialing h) true d j o =
    ground (arith, get-get_mut h j (λ p. (register d.next_channel p).0) d.registry)
perform-Counted (dialing h) false d j o = ground (arith, get-get_mut h j dial_failed d.registry)
perform-Counted (forwarding h n) b d j o =
    ground (arith, get-get_mut h j connection_ended d.registry)
perform-Counted (cleaning h) b d j o = ground (arith, get-get_mut h j clean_idle d.registry)
perform-Counted (listing check) b d j o = ground (
  arith,
  count-spawn_all (watches j) (λ h. scanning h check) (hosts_with_sessions d.registry) d.tasks
      (λ _. refl),
)
perform-Counted (scanning h check) b d j o = ground arith
perform-Counted (liveness h true) true d j o = ground arith
perform-Counted (liveness h false) true d j o =
    ground (arith, get-get_mut h j (λ p. (revive p).0) d.registry, text_eq_iff h j)
perform-Counted (liveness h was) false d j o =
    ground (arith, get-get_mut h j (probe_lost was) d.registry)
perform-Counted (receiving h) b d j o = ground (arith, get-get_mut h j inbound_closed d.registry)

track_pid-session_count :
    (pid : ℕ) {p : PeerState}
    → IsValid p
    → (track_pid pid p).0.session_count ≡ p.session_count + bit (track_pid pid p).1
unfolding track_pid
track_pid-session_count pid v = ground (arith, session_count-le v)

track_pids-session_count :
    (pids : List ℕ) {p : PeerState}
    → All (λ pid. pid < pid_mod) pids
    → IsValid p
    → (track_pids pids p).0.session_count ≡ p.session_count + length (track_pids pids p).1
unfolding track_pids
track_pids-session_count [] u v = omega arith
track_pids-session_count (pid ∷ pids) {p} (u, us) v = ground (
  arith,
  track_pid-session_count pid v,
  track_pids-session_count pids us (track_pid-IsValid pid u v),
)

count-watch :
    (h j : Text) (pids : List ℕ) (ts : List Task)
    → count (watches j) (spawn_all (watch h) pids ts)
      ≡ (if text_eq h j then length pids else 0) + count (watches j) ts
count-watch h j pids ts = elim (Bool-cases (text_eq h j)) [
  | inl e ↦ rw e (count-spawn_each (watches j) (watch h) pids ts (λ _. e))
  | inr e ↦ rw e (omega (arith, count-spawn_all (watches j) (watch h) pids ts (λ _. e)))
]

step-Counted :
    (d : Daemon) (e : Event) → IsQuiet e → PeersValid d.registry → Counted d → Counted (step d e)
unfolding step handle_connect handle_pid_exit discover_host refresh_peer_liveness accept_inbound
    create on_peer pid_exit inbound_opened claim
step-Counted d (connect h pid) u w v = record {
  at = λ j. elim (Option-cases (get h d.registry)) [
    | inl q ↦ ground (
      arith,
      get-get_mut h j (λ p. (track_pid pid p).0) (get_or_create h d.registry),
      get-get_or_create h j d.registry,
      get-get_or_create h h d.registry,
      text_eq_iff h j,
      text_eq_refl h,
      track_pid-session_count pid fresh-IsValid,
      v.at j,
    )
    | inr (s, q) ↦ ground (
      arith,
      get-get_mut h j (λ p. (track_pid pid p).0) (get_or_create h d.registry),
      get-get_or_create h j d.registry,
      get-get_or_create h h d.registry,
      text_eq_iff h j,
      text_eq_refl h,
      track_pid-session_count pid (w.at h s q),
      v.at j,
    )
  ];
}
step-Counted d (disconnect h pid) u w v = absurd u
step-Counted d (refresh check) u w v = record {
  at = λ j. ground (
    arith,
    count-spawn_all (watches j) cleaning (connected_hosts_without_sessions d.registry)
        (listing check ∷ d.tasks) (λ _. refl),
    v.at j,
  );
}
step-Counted d (discovered h pids) u w v = record {
  at = λ j. elim (Option-cases (get h (get_or_create h d.registry))) [
    | inl q ↦ ground (arith, get-get_or_create h h d.registry, text_eq_refl h)
    | inr (s, q) ↦ ground (
      arith,
      get-get_mut h j (λ p. (discover_section pids p).0) (get_or_create h d.registry),
      get-get_or_create h j d.registry,
      text_eq_iff h j,
      track_pids-session_count pids u ((get_or_create-PeersValid h d.registry w).at h s q),
      count-watch h j (track_pids pids s).1 d.tasks,
      count-watch h j (track_pids pids s).1 (probing h ∷ d.tasks),
      v.at j,
    )
  ];
}
step-Counted d (accepted h) u w v = record {
  at = λ j. ground (
    arith,
    get-get_mut h j inbound_opened (get_or_create h d.registry),
    get-get_or_create h j d.registry,
    v.at j,
  );
}
step-Counted d (run n b) u w v = elim (Option-cases (pick n d.tasks)) [
  | inl q ↦ rw (q, step) v
  | inr ((t, rest), q) ↦
      rw (q, step)
        (record {
          at = λ j.
              perform-Counted t b (record d { tasks = rest }) j
                (v.at j ∙ count-pick (watches j) n d.tasks t rest q);
        })
]

run_all-Counted :
    (d : Daemon) (es : List Event)
    → All IsQuiet es
    → PeersValid d.registry
    → Counted d
    → Counted (run_all d es)
unfolding run_all
run_all-Counted d [] u w v = v
run_all-Counted d (e ∷ es) (u, us) w v =
    run_all-Counted (step d e) es us (step-PeersValid d e (IsQuiet-InRange e u) w)
      (step-Counted d e u w v)

-- After any history of a new daemon without a Disconnect message, with PIDs that are `u32`s, the
-- session count of each host is the number of its SSH processes that are still watched.
pub session_count_exact :
    (es : List Event) (h : Text)
    → All IsQuiet es
    → sessions_at (get h (run_all init es).registry) ≡ count (watches h) (run_all init es).tasks
session_count_exact es h u =
    (run_all-Counted init es u init-PeersValid (record { at = λ j. unfold get lookup in refl })).at
      h

-- After any history of a new daemon whose PIDs are `u32`s, Disconnect messages included, a host has
-- at most 2^32 sessions: `session_count += 1` never passes the range of a `usize`.
pub session_count_bounded :
    (es : List Event) (h : Text)
    → All InRange es
    → sessions_at (get h (run_all init es).registry) ≤ pid_mod
session_count_bounded es h u = go (get h (run_all init es).registry) refl
  where
    go : (o : Option PeerState) → get h (run_all init es).registry ≡ o → sessions_at o ≤ pid_mod
    go none e = omega arith
    go (some p) e = session_count-le ((run_all-PeersValid init es u init-PeersValid).at h p e)
