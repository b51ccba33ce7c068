-- ===== src/Daemon/Phases/Machine.antt =====
-- The steps of src/daemon.rs follow the machine of the phases.
use tassh.Peer.{PeerState, PeerRegistry, get_or_create, get, get-get_mut, get-get_or_create}
use tassh.Daemon.Sections.{
  claim, probe_missed, pid_exit, register, dial_failed, connection_ended, clean_idle, revive,
  probe_lost, inbound_opened, inbound_closed, track_pid, track_pids,
}
use tassh.Daemon.{
  Daemon, Task, watch, claiming, probing, dialing, forwarding, cleaning, listing, scanning,
  liveness, receiving, perform, track_pids, step, track_pid, handle_connect, Event, handle_pid_exit,
  discover_host, refresh_peer_liveness, run_all, accept_inbound, init, create, on_peer, connect,
  disconnect, refresh, discovered, discover_section, accepted, run, pick,
}
use tassh.Daemon.Invariant.{PeersValid, InRange, run_all-PeersValid, init-PeersValid}
use tassh.Daemon.Phases.{allowed, phase_at, task_cause, cause}
use tassh.Prelude.{
  Text, Option, Bool, true, false, some, none, ◌≡◌, ◌&&◌, arith, inl, inr, Option-cases, List, All,
  ℕ, ◌∷◌, [], refl,
}

abbrev both_at : Option PeerState → Bool
both_at none = false
both_at (some p) = p.connected && p.connecting

-- No valid peer is connected and connecting.
both_at-PeersValid : (r : PeerRegistry) (h : Text) → PeersValid r → both_at (get h r) ≡ false
both_at-PeersValid r h v = elim (Option-cases (get h r)) [
  | inl q ↦ rw q
  | inr (p, q) ↦ ground (arith, q, (v.at h p q).settled)
]

perform-allowed :
    (t : Task) (b : Bool) (d : Daemon) (h : Text)
    → both_at (get h d.registry) ≡ false
    → allowed
        (task_cause h t b)
        (phase_at (get h d.registry))
        (phase_at (get h (perform t b d).registry))
      ≡ true
unfolding perform claim probe_missed pid_exit register dial_failed connection_ended clean_idle
    revive probe_lost inbound_opened inbound_closed
perform-allowed (watch j pid) b d h v = ground (arith, get-get_mut j h (pid_exit pid) d.registry)
perform-allowed (claiming j) b d h v = ground (
  arith,
  get-get_mut j h (λ p. (claim p).0) (get_or_create j d.registry),
  get-get_or_create j h d.registry,
)
perform-allowed (probing j) true d h v = ground arith
perform-allowed (probing j) false d h v = ground (arith, get-get_mut j h probe_missed d.registry)
perform-allowed (dialing j) true d h v =
    ground (arith, get-get_mut j h (λ p. (register d.next_channel p).0) d.registry)
perform-allowed (dialing j) false d h v = ground (arith, get-get_mut j h dial_failed d.registry)
perform-allowed (forwarding j c) b d h v =
    ground (arith, get-get_mut j h connection_ended d.registry)
perform-allowed (cleaning j) b d h v = ground (arith, get-get_mut j h clean_idle d.registry)
perform-allowed (listing check) b d h v = ground arith
perform-allowed (scanning j check) b d h v = ground arith
perform-allowed (liveness j true) true d h v = ground arith
perform-allowed (liveness j false) true d h v =
    ground (arith, get-get_mut j h (λ p. (revive p).0) d.registry)
perform-allowed (liveness j was) false d h v =
    ground (arith, get-get_mut j h (probe_lost was) d.registry)
perform-allowed (receiving j) b d h v = ground (arith, get-get_mut j h inbound_closed d.registry)

track_pids-phase :
    (pids : List ℕ) (p : PeerState)
    → ((track_pids pids p).0.connected ≡ p.connected)
      × ((track_pids pids p).0.connecting ≡ p.connecting)
unfolding track_pids track_pid
track_pids-phase [] p = (refl, refl)
track_pids-phase (pid ∷ pids) p = ground (arith, track_pids-phase pids (track_pid pid p).0)

step-allowed :
    (d : Daemon) (e : Event) (h : Text)
    → both_at (get h d.registry) ≡ false
    → allowed (cause h d e) (phase_at (get h d.registry)) (phase_at (get h (step d e).registry))
      ≡ true
unfolding step handle_connect handle_pid_exit discover_host refresh_peer_liveness accept_inbound
    create on_peer track_pid pid_exit inbound_opened claim
step-allowed d (connect j pid) h v = ground (
  arith,
  get-get_mut j h (λ p. (track_pid pid p).0) (get_or_create j d.registry),
  get-get_or_create j h d.registry,
)
step-allowed d (disconnect j pid) h v = ground (arith, get-get_mut j h (pid_exit pid) d.registry)
step-allowed d (refresh check) h v = ground arith
step-allowed d (discovered j pids) h v = elim (Option-cases (get h (get_or_create j d.registry))) [
  | inl q ↦ ground (
    arith,
    get-get_mut j h (λ p. (discover_section pids p).0) (get_or_create j d.registry),
    get-get_or_create j h d.registry,
    q,
  )
  | inr (s, q) ↦ ground (
    arith,
    get-get_mut j h (λ p. (discover_section pids p).0) (get_or_create j d.registry),
    get-get_or_create j h d.registry,
    track_pids-phase pids s,
    q,
  )
]
step-allowed d (accepted j) h v = ground (
  arith,
  get-get_mut j h inbound_opened (get_or_create j d.registry),
  get-get_or_create j h d.registry,
)
step-allowed d (run n b) h v = elim (Option-cases (pick n d.tasks)) [
  | inl q ↦ rw (q, step, cause) (ground arith)
  | inr ((t, rest), q) ↦ rw (q, step, cause) (perform-allowed t b (record d { tasks = rest }) h v)
]

-- After any history of a new daemon whose PIDs are `u32`s, the next event changes the phase of each host
-- only along an edge of the machine: a host begins to connect only by a section that claims it, is
-- connected only by an attempt that succeeded, and stops to be connected only when a process or a
-- connection of it ended, or it was looked at without an answer or a session.
pub step_follows_machine :
    (es : List Event) (e : Event) (h : Text)
    → All InRange es
    → let d = run_all init es in
      allowed (cause h d e) (phase_at (get h d.registry)) (phase_at (get h (step d e).registry))
      ≡ true
step_follows_machine es e h u =
    step-allowed (run_all init es) e h (
      both_at-PeersValid (run_all init es).registry h
        (run_all-PeersValid init es u init-PeersValid))
