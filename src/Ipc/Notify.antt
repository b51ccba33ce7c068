-- ===== src/Ipc/Notify.antt =====
-- From `tassh notify` of src/main.rs to the connection that the daemon of src/daemon.rs keeps for the
-- session.
use tassh.Peer.{PeerState, get, get_or_create, fresh, get-get_mut, get-get_or_create}
use tassh.Daemon.Sections.{contains, track_pid}
use tassh.Daemon.Valid.{pid_mod, session_count-le}
use tassh.Daemon.Invariant.{InRange, PeersValid, run_all-PeersValid, init-PeersValid}
use tassh.Daemon.Log.{watched_at}
use tassh.Daemon.Channels.{connected_at}
use tassh.Daemon.Recovery.{IsHelpful}
use tassh.Daemon.Reconnect.{session_recovers}
use tassh.Daemon.{Daemon, Event, connect, init, step, run_all, handle_connect}
use tassh.Ipc.{
  Json, Reaction, ignored, event, answered, broadcast, handle_ipc_connection, send_notify,
}
use tassh.Ipc.Delivery.{commands_delivered}
use tassh.Prelude.{
  ℕ, Text, List, All, ◌≡◌, ◌≤◌, ◌<◌, ◌^◌, ◌++◌, some, true, false, [], ◌∷◌, length, arith, refl,
  inl, inr, Option-cases, text_eq_refl,
}

-- The reaction changes the registry by its event.
unfoldable pub applied : Reaction → Daemon → Daemon
applied ignored d = d
applied (event e) d = step d e
applied (answered e) d = step d e
applied (broadcast f) d = d

pub run_all-append :
    (d : Daemon) (es fs : List Event) → run_all d (es ++ fs) ≡ run_all (run_all d es) fs
unfolding run_all
run_all-append d [] fs = refl
run_all-append d (e ∷ es) fs = run_all-append (step d e) es fs

track_pid_counts :
    (pid : ℕ) (p : PeerState)
    → contains p.watched_pids pid ≡ false
    → p.session_count ≤ pid_mod
    → 0 < (track_pid pid p).0.session_count
unfolding track_pid
track_pid_counts pid p new small = ground arith

-- The peer behind a notification of a new process has a session.
connect-session :
    (d : Daemon) (h : Text) (pid : ℕ)
    → PeersValid d.registry
    → contains (watched_at (get h d.registry)) pid ≡ false
    → (p : PeerState) × (get h (step d (connect h pid)).registry ≡ some p) × (0 < p.session_count)
unfolding step handle_connect
connect-session d h pid v new =
    let section = get-get_mut h h (λ p. (track_pid pid p).0) (get_or_create h d.registry) in
    let found = get-get_or_create h h d.registry in
    elim (Option-cases (get h d.registry)) [
      | inl q ↦ (
        (track_pid pid fresh).0,
        ground (arith, section, found, q, text_eq_refl h),
        track_pid_counts pid fresh (unfold contains in refl) (omega arith),
      )
      | inr (p, q) ↦ (
        (track_pid pid p).0,
        ground (arith, section, found, q, text_eq_refl h),
        track_pid_counts pid p (rw q at new) (session_count-le (v.at h p q)),
      )
    ]

module _ (J : Json) where
  -- A notification of a process that is not watched yet, at any point of the history of a daemon: the
  -- bytes that `tassh notify` writes bring about a session of the host, and at most five further events,
  -- a tick of the refresh and sections whose probe and connection are successful, connect it.
  pub notify_connects :
      (es : List Event) (host : Text) (port ssh_pid : ℕ)
      → port < 2 ^ 16
      → ssh_pid < 2 ^ 32
      → All InRange es
      → contains (watched_at (get host (run_all init es).registry)) ssh_pid ≡ false
      → let d =
          applied (handle_ipc_connection J (send_notify J host port ssh_pid)) (run_all init es) in
        (more : List Event) × All IsHelpful more
        × (length more ≤ 5)
        × (connected_at (get host (run_all d more).registry) ≡ true)
  unfolding applied run_all
  notify_connects es host port ssh_pid hp hs u new =
      let received = (commands_delivered J host port ssh_pid [] hp hs tt).0 in
      let before = run_all init es in
      let (p, here, counted) =
        connect-session before host ssh_pid (run_all-PeersValid init es u init-PeersValid) new in
      let longer = es ++ connect host ssh_pid ∷ [] in
      let e : run_all init longer ≡ step before (connect host ssh_pid) =
        run_all-append init es (connect host ssh_pid ∷ []) in
      rw received (rw e at (session_recovers longer host p (rw e here) counted))
