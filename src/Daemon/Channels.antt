-- ===== src/Daemon/Channels.antt =====
-- Channels of src/daemon.rs: the close channel that a peer holds belongs to a connection task that is
-- running, so a peer that is shown as connected has a connection behind it.
use tassh.Daemon.Invariant.{InRange, init-PeersValid, run_all-PeersValid}
use tassh.Peer.{
  PeerState, get_or_create, get, get-get_mut, get-get_or_create, connected_hosts_without_sessions,
  hosts_with_sessions,
}
use tassh.Daemon.Sections.{
  track_pid, claim, probe_missed, pid_exit, register, dial_failed, connection_ended, clean_idle,
  revive, probe_lost, inbound_opened, inbound_closed, track_pids,
}
use tassh.Daemon.{
  Daemon, Task, watch, claiming, probing, dialing, forwarding, cleaning, listing, scanning,
  liveness, receiving, Event, connect, disconnect, refresh, discovered, accepted, run, init, step,
  run_all, pick, perform, on_peer, create, handle_connect, handle_pid_exit, discover_section,
  discover_host, refresh_peer_liveness, accept_inbound,
}
use tassh.Daemon.Tasks.{count, bit, count-pick, count-spawn_all}
use tassh.Prelude.{
  ℕ, true, false, refl, inl, inr, Option-cases, lookup, Text, Option, Bool, List, arith, text_eq,
  ◌≡◌, ◌∷◌, All, some, ◌&&◌, ◌<◌, text_eq_refl, none, [], ◌==◌, ◌+◌, text_eq_iff, ◌⊎◌,
}

-- The task that forwards frames to a host under a close channel.
abbrev pub forwards : Text → ℕ → Task → Bool
forwards j c (forwarding h e) = text_eq h j && e == c
forwards j c _ = false

abbrev pub close_tx_at : Option PeerState → Option ℕ
close_tx_at none = none
close_tx_at (some p) = p.close_tx

-- Each close channel that a peer holds has its connection task.
pub record Served (d : Daemon) : Type 0 where
  pub at :
      (h : Text) (c : ℕ)
      → close_tx_at (get h d.registry) ≡ some c
      → 0 < count (forwards h c) d.tasks

abbrev Owed : Task → Daemon → Text → ℕ → Type 0
Owed t d j c =
    close_tx_at (get j d.registry) ≡ some c
    → 0 < bit (forwards j c t) + count (forwards j c) d.tasks

perform-Served :
    (t : Task) (b : Bool) (d : Daemon) (j : Text) (c : ℕ)
    → Owed t d j c
    → close_tx_at (get j (perform t b d).registry) ≡ some c
    → 0 < count (forwards j c) (perform t b d).tasks
unfolding perform claim probe_missed pid_exit register dial_failed connection_ended clean_idle
    revive probe_lost inbound_opened inbound_closed
perform-Served (watch h pid) b d j c o q = ground (arith, get-get_mut h j (pid_exit pid) d.registry)
perform-Served (claiming h) b d j c o q = ground (
  arith,
  get-get_mut h j (λ p. (claim p).0) (get_or_create h d.registry),
  get-get_or_create h j d.registry,
  get-get_or_create h h d.registry,
  text_eq_iff h j,
  text_eq_refl h,
)
perform-Served (probing h) true d j c o q = ground arith
perform-Served (probing h) false d j c o q = ground (arith, get-get_mut h j probe_missed d.registry)
perform-Served (dialing h) true d j c o q =
    ground (arith, text_eq_iff h j, get-get_mut h j (λ p. (register d.next_channel p).0) d.registry)
perform-Served (dialing h) false d j c o q = ground (arith, get-get_mut h j dial_failed d.registry)
perform-Served (forwarding h n) b d j c o q =
    ground (arith, get-get_mut h j connection_ended d.registry)
perform-Served (cleaning h) b d j c o q = ground (arith, get-get_mut h j clean_idle d.registry)
perform-Served (listing check) b d j c o q = ground (
  arith,
  count-spawn_all (forwards j c) (λ h. scanning h check) (hosts_with_sessions d.registry) d.tasks
      (λ _. refl),
)
perform-Served (scanning h check) b d j c o q = ground arith
perform-Served (liveness h true) true d j c o q = ground arith
perform-Served (liveness h false) true d j c o q =
    ground (arith, get-get_mut h j (λ p. (revive p).0) d.registry, text_eq_iff h j)
perform-Served (liveness h was) false d j c o q =
    ground (arith, get-get_mut h j (probe_lost was) d.registry)
perform-Served (receiving h) b d j c o q = ground (arith, get-get_mut h j inbound_closed d.registry)

track_pids-close_tx : (pids : List ℕ) (p : PeerState) → (track_pids pids p).0.close_tx ≡ p.close_tx
unfolding track_pids track_pid
track_pids-close_tx [] p = refl
track_pids-close_tx (pid ∷ pids) p = ground (arith, track_pids-close_tx pids (track_pid pid p).0)

-- Whatever happens next, no close channel is orphaned.
pub step-Served : (d : Daemon) (e : Event) → Served d → Served (step d e)
unfolding step handle_connect handle_pid_exit discover_host refresh_peer_liveness accept_inbound
    create on_peer track_pid pid_exit inbound_opened claim
step-Served d (connect h pid) v = record {
  at = λ j c q. ground (
    arith,
    get-get_mut h j (λ p. (track_pid pid p).0) (get_or_create h d.registry),
    get-get_or_create h j d.registry,
    v.at j c,
  );
}
step-Served d (disconnect h pid) v = record {
  at = λ j c q. ground (arith, get-get_mut h j (pid_exit pid) d.registry, v.at j c);
}
step-Served d (refresh check) v = record {
  at = λ j c q. ground (
    arith,
    count-spawn_all (forwards j c) cleaning (connected_hosts_without_sessions d.registry)
        (listing check ∷ d.tasks) (λ _. refl),
    v.at j c,
  );
}
step-Served d (discovered h pids) v = record {
  at = λ j c q. elim (Option-cases (get h (get_or_create h d.registry))) [
    | inl e ↦ ground (arith, get-get_or_create h h d.registry, text_eq_refl h)
    | inr (s, e) ↦ ground (
      arith,
      get-get_mut h j (λ p. (discover_section pids p).0) (get_or_create h d.registry),
      get-get_or_create h j d.registry,
      text_eq_iff h j,
      track_pids-close_tx pids s,
      count-spawn_all (forwards j c) (watch h) (track_pids pids s).1 d.tasks (λ _. refl),
      count-spawn_all (forwards j c) (watch h) (track_pids pids s).1 (probing h ∷ d.tasks)
          (λ _. refl),
      v.at j c,
    )
  ];
}
step-Served d (accepted h) v = record {
  at = λ j c q. ground (
    arith,
    get-get_mut h j inbound_opened (get_or_create h d.registry),
    get-get_or_create h j d.registry,
    v.at j c,
  );
}
step-Served d (run n b) v = elim (Option-cases (pick n d.tasks)) [
  | inl q ↦ rw (q, step) v
  | inr ((t, rest), q) ↦
      rw (q, step)
        (record {
          at = λ j c.
              perform-Served t b (record d { tasks = rest }) j c
                (λ o. rw (← count-pick (forwards j c) n d.tasks t rest q) (v.at j c o));
        })
]

run_all-Served : (d : Daemon) (es : List Event) → Served d → Served (run_all d es)
unfolding run_all
run_all-Served d [] v = v
run_all-Served d (e ∷ es) v = run_all-Served (step d e) es (step-Served d e v)

abbrev pub connected_at : Option PeerState → Bool
connected_at none = false
connected_at (some p) = p.connected

-- After any history of a new daemon whose PIDs are `u32`s, a host that counts as connected has the
-- close channel of a connection task that is in flight.
pub connected_served :
    (es : List Event) (h : Text)
    → All InRange es
    → connected_at (get h (run_all init es).registry) ≡ true
    → (c : ℕ) × (close_tx_at (get h (run_all init es).registry) ≡ some c)
      × (0 < count (forwards h c) (run_all init es).tasks)
connected_served es h u k = elim (Option-cases (get h (run_all init es).registry)) [
  | inl q ↦ ground arith
  | inr (p, q) ↦ go p q (Option-cases p.close_tx)
]
  where
    d : Daemon
    d = run_all init es

    served : Served d
    served = run_all-Served init es (record { at = λ j c e. unfold get lookup in cc e })

    go :
        (p : PeerState)
        → get h d.registry ≡ some p
        → (p.close_tx ≡ none) ⊎ ((c : ℕ) × (p.close_tx ≡ some c))
        → (c : ℕ) × (close_tx_at (get h d.registry) ≡ some c) × (0 < count (forwards h c) d.tasks)
    go p q (inl e) =
        absurd (ground (arith, (run_all-PeersValid init es u init-PeersValid).at h p q))
    go p q (inr (c, e)) =
        let held : close_tx_at (get h d.registry) ≡ some c = rw q e in (c, held, served.at h c held)
