-- ===== src/Daemon/Ticks.antt =====
-- A host with a session that is not connected: a refresh of src/daemon.rs, in its order, brings it back.
use tassh.Peer.{PeerState, get, hosts_with_sessions, connected_hosts_without_sessions}
use tassh.Daemon.{
  Daemon, listing, scanning, liveness, Event, refresh, init, step, run_all, perform, pick,
  refresh_peer_liveness,
}
use tassh.Daemon.Tasks.{count, count-pick, count-spawn_all, count-spawn_each}
use tassh.Daemon.Attempts.{attempts, connecting_attempted}
use tassh.Daemon.Channels.{connected_at}
use tassh.Daemon.Idle.{refresh_cleans_nothing}
use tassh.Daemon.Invariant.{InRange}
use tassh.Daemon.Recovery.{
  IsHelpful, Along, count-pick_some, Recovers, Recovers-le, recovered, Recovers-step, Recovers-run,
  Recovers-attempt,
}
use tassh.Daemon.Reconnect.{IsWaiting, Recovers-liveness, lists, listing-scanning}
use tassh.Prelude.{
  ℕ, zero, suc, Text, List, All, Bool-cases, ◌≡◌, ◌≤◌, ◌<◌, ◌+◌, some, true, false, [], ◌∷◌, length,
  arith, refl, inl, inr,
}
use tassh.Daemon.InOrder.{
  visits, probes, refreshes, cleans, IsInOrder, IsAtHand, visited, visit-IsAtHand,
  attempts-IsInOrder, visits-scanning, lists-listing, count-refreshes, count-scans-le,
  probes-liveness,
}

-- All visits first, then the probe of the host.
Recovers-visits :
    (n : ℕ) (d : Daemon) (h : Text) (p : PeerState)
    → IsWaiting d h p
    → count visits d.tasks ≡ n
    → count lists d.tasks ≡ 0
    → IsAtHand h d.tasks
    → Recovers IsInOrder (n + 2) d h
unfolding perform
Recovers-visits zero d h p w e l a =
    let probed : 0 < count (probes h) d.tasks = elim a [
      | inl x ↦ absurd (omega (arith, x, e, count-scans-le h d.tasks))
      | inr x ↦ x
    ] in
    let (k, t, rest, found, q) = count-pick_some (probes h) d.tasks probed in
    let at_probe : pick k d.tasks ≡ some (liveness h false, rest) =
      rw (probes-liveness h t q) at found in
    Recovers-liveness IsInOrder k d h p rest w at_probe (rw at_probe (l, e)) (λ d' left x. rw x tt)
Recovers-visits (suc n) d h p w e l a =
    let (k, t, rest, found, q) = count-pick_some visits d.tasks (omega (arith, e)) in
    let (j, c, same) = visits-scanning t q in
    let picked : pick k d.tasks ≡ some (scanning j c, rest) = rw same at found in
    let b = record d { tasks = rest } in
    let v : IsWaiting b h p = record {
      here = w.here;
      open' = w.open';
      apart = w.apart;
      free = w.free;
    } in
    let (fewer, same', _, _) = visited b h j c in
    let listed = count-pick lists k d.tasks (scanning j c) rest picked in
    let left = count-pick visits k d.tasks (scanning j c) rest picked in
    Recovers-le IsInOrder (suc (n + 2)) (suc n + 2) d h (omega arith) (
      Recovers-run IsInOrder k (n + 2) d h (scanning j c) rest picked (rw picked tt) (
        Recovers-visits n _ h p
          (record { here = w.here; open' = w.open'; apart = w.apart; free = w.free })
          (omega (arith, e, fewer, left)) (omega (arith, l, listed, same'))
          (visit-IsAtHand b h j c p k d.tasks v picked a)))

-- The listing and what it spawns.
Recovers-list :
    (d : Daemon) (h : Text) (p : PeerState)
    → IsWaiting d h p
    → count visits d.tasks ≡ 0
    → count cleans d.tasks ≡ 0
    → count lists d.tasks ≡ 1
    → Recovers IsInOrder (length (hosts_with_sessions d.registry) + 3) d h
unfolding perform
Recovers-list d h p w e clean l =
    let (k, t, rest, found, q) = count-pick_some lists d.tasks (omega (arith, l)) in
    let (c, same) = lists-listing t q in
    let picked : pick k d.tasks ≡ some (listing c, rest) = rw same at found in
    let b = record d { tasks = rest } in
    let v : IsWaiting b h p = record {
      here = w.here;
      open' = w.open';
      apart = w.apart;
      free = w.free;
    } in
    let hosts = hosts_with_sessions d.registry in
    let listed = count-pick lists k d.tasks (listing c) rest picked in
    let none' = count-pick visits k d.tasks (listing c) rest picked in
    let r : Recovers IsInOrder (length hosts + 2) (perform (listing c) true b) h =
      Recovers-visits (length hosts) _ h p
        (record { here = w.here; open' = w.open'; apart = w.apart; free = w.free })
        (omega (
          arith,
          e,
          none',
          count-spawn_each visits (λ (j : Text). scanning j c) hosts rest (λ j. refl),
        ))
        (omega (
          arith,
          l,
          listed,
          count-spawn_all lists (λ (j : Text). scanning j c) hosts rest (λ j. refl),
        ))
        (inl (listing-scanning b h c p v)) in
    Recovers-le IsInOrder (suc (length hosts + 2)) (length hosts + 3) d h (omega arith)
      (Recovers-run IsInOrder k (length hosts + 2) d h (listing c) rest picked (rw picked clean) r)

-- A tick, with the whole refresh up to the connection.
Recovers-tick :
    (d : Daemon) (h : Text) (p : PeerState)
    → IsWaiting d h p
    → count refreshes d.tasks ≡ 0
    → connected_hosts_without_sessions d.registry ≡ []
    → Recovers IsInOrder (length (hosts_with_sessions d.registry) + 4) d h
unfolding step refresh_peer_liveness
Recovers-tick d h p w e idle =
    let hosts = hosts_with_sessions d.registry in
    let free = count-refreshes d.tasks in
    let listed : (step d (refresh false)).tasks ≡ listing false ∷ d.tasks = rw idle refl in
    let r : Recovers IsInOrder (length hosts + 3) (step d (refresh false)) h =
      Recovers-list (step d (refresh false)) h p
        (record { here = w.here; open' = w.open'; apart = w.apart; free = w.free })
        (rw listed (omega (arith, e, free))) (rw listed (omega (arith, e, free)))
        (rw listed (omega (arith, e, free))) in
    Recovers-le IsInOrder (suc (length hosts + 3)) (length hosts + 4) d h (omega arith)
      (Recovers-step IsInOrder (length hosts + 3) d h (refresh false) tt e r)

-- After any history of a new daemon whose PIDs are `u32`s with no refresh under way, a host with an open
-- session is connected, or is so after further events, at most four and one for each host with a session:
-- the sections of an attempt that is under way, or the next tick, the listing, the visits to all hosts with a
-- session, the probe of this host, and its connection, the probe and the connection successful. They come
-- in the order that the refresh and its ticker keep: no tick before the refresh has ended, no listing before
-- the cleaning, and no probe evaluated before all visits.
pub session_reconnects :
    (es : List Event) (h : Text) (p : PeerState)
    → All InRange es
    → count refreshes (run_all init es).tasks ≡ 0
    → get h (run_all init es).registry ≡ some p
    → 0 < p.session_count
    → let d = run_all init es in
      (more : List Event) × All IsHelpful more
      × Along IsInOrder d more
      × (length more ≤ length (hosts_with_sessions d.registry) + 4)
      × (connected_at (get h (run_all d more).registry) ≡ true)
session_reconnects es h p u quiet e s =
    let d = run_all init es in
    let n = length (hosts_with_sessions d.registry) + 4 in
    let (idle, _) = refresh_cleans_nothing es false u in
    let r : Recovers IsInOrder n d h = elim (Bool-cases p.connected) [
      | inl c ↦ recovered IsInOrder n d h (rw e c)
      | inr c ↦ elim (Bool-cases p.connecting) [
        | inl busy ↦
            let (k, t, rest, found, attempt) =
              count-pick_some (attempts h) d.tasks (connecting_attempted es h (rw e busy)) in
            Recovers-le IsInOrder 2 n d h (omega arith)
              (Recovers-attempt IsInOrder k t d h p rest e s attempt (attempts-IsInOrder h) found)
        | inr free ↦
            Recovers-tick d h p (record { here = e; open' = s; apart = c; free = free }) quiet idle
      ]
    ] in
    (r.more, r.helpful, r.inside, r.bounded, r.connects)
