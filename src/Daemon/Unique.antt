-- ===== src/Daemon/Unique.antt =====
-- The close channels of src/daemon.rs: no two connection tasks have the same one.
use tassh.Peer.{hosts_with_sessions, get_or_create, get, connected_hosts_without_sessions}
use tassh.Daemon.{
  connect, disconnect, refresh, discovered, accepted, run, step, run_all, init, pick, on_peer,
  create, handle_connect, handle_pid_exit, discover_host, refresh_peer_liveness, accept_inbound,
  Event, Daemon, Task, watch, claiming, probing, dialing, forwarding, cleaning, listing, scanning,
  liveness, receiving, perform, connected_hosts_without_sessions,
}
use tassh.Daemon.Sections.{track_pids}
use tassh.Daemon.Tasks.{count-pick, count, bit, count-spawn_all}
use tassh.Daemon.Invariant.{InRange}
use tassh.Daemon.Channels.{forwards, close_tx_at, connected_at, connected_served}
use tassh.Prelude.{
  Text, Option-cases, All, some, inl, inr, refl, true, ℕ, Bool, false, ◌≡◌, ◌==◌, ◌+◌, ◌<◌, ◌≤◌,
  arith, ◌⊎◌, List, ◌∷◌, [],
}

-- The task of a connection with this close channel, whatever its host.
abbrev pub uses : ℕ → Task → Bool
uses c (forwarding h e) = e == c
uses c _ = false

-- Each channel has at most one task, and the next one has none.
pub record Unique (d : Daemon) : Type 0 where
  pub once : (c : ℕ) → count (uses c) d.tasks ≤ 1
  pub unused : (c : ℕ) → d.next_channel ≤ c → count (uses c) d.tasks ≡ 0

-- What a section adds to the tasks of a channel: one at most, and only of the next channel.
abbrev Adds : ℕ → Daemon → Daemon → Type 0
Adds c d e =
    (count (uses c) e.tasks ≤ count (uses c) d.tasks + bit (c == d.next_channel))
    × (d.next_channel ≤ e.next_channel)
    × ((count (uses c) e.tasks ≤ count (uses c) d.tasks) ⊎ (d.next_channel < e.next_channel))

perform-Adds : (t : Task) (b : Bool) (d : Daemon) (c : ℕ) → Adds c d (perform t b d)
unfolding perform
perform-Adds (watch h pid) b d c = ground arith
perform-Adds (claiming h) b d c = ground arith
perform-Adds (probing h) true d c = ground arith
perform-Adds (probing h) false d c = ground arith
perform-Adds (dialing h) true d c = ground arith
perform-Adds (dialing h) false d c = ground arith
perform-Adds (forwarding h n) b d c = ground arith
perform-Adds (cleaning h) b d c = ground arith
perform-Adds (listing check) b d c = ground (
  arith,
  count-spawn_all (uses c) (λ h. scanning h check) (hosts_with_sessions d.registry) d.tasks
      (λ _. refl),
)
perform-Adds (scanning h check) b d c = ground arith
perform-Adds (liveness h true) true d c = ground arith
perform-Adds (liveness h false) true d c = ground arith
perform-Adds (liveness h was) false d c = ground arith
perform-Adds (receiving h) b d c = ground arith

step-Adds : (d : Daemon) (e : Event) (c : ℕ) → Adds c d (step d e)
unfolding step handle_connect handle_pid_exit discover_host refresh_peer_liveness accept_inbound
    create on_peer
step-Adds d (connect h pid) c = ground arith
step-Adds d (disconnect h pid) c = ground arith
step-Adds d (refresh check) c = ground (
  arith,
  count-spawn_all (uses c) cleaning (connected_hosts_without_sessions d.registry)
      (listing check ∷ d.tasks) (λ _. refl),
)
step-Adds d (discovered h pids) c = elim (Option-cases (get h (get_or_create h d.registry))) [
  | inl e ↦ ground (arith, e)
  | inr (s, e) ↦ ground (
    arith,
    e,
    count-spawn_all (uses c) (watch h) (track_pids pids s).1 d.tasks (λ _. refl),
    count-spawn_all (uses c) (watch h) (track_pids pids s).1 (probing h ∷ d.tasks) (λ _. refl),
  )
]
step-Adds d (accepted h) c = ground arith
step-Adds d (run n b) c = elim (Option-cases (pick n d.tasks)) [
  | inl q ↦ rw (q, step) (ground arith)
  | inr ((t, rest), q) ↦
      rw (q, step)
        (ground (
          arith,
          perform-Adds t b (record d { tasks = rest }) c,
          count-pick (uses c) n d.tasks t rest q,
        ))
]

step-Unique : (d : Daemon) (e : Event) → Unique d → Unique (step d e)
step-Unique d e v = record {
  once = λ c. ground (arith, step-Adds d e c, v.once c, v.unused c);
  unused = λ c h. ground (arith, step-Adds d e c, v.unused c, h);
}

run_all-Unique : (d : Daemon) (es : List Event) → Unique d → Unique (run_all d es)
unfolding run_all
run_all-Unique d [] v = v
run_all-Unique d (e ∷ es) v = run_all-Unique (step d e) es (step-Unique d e v)

forwards-uses : (h : Text) (c : ℕ) (ts : List Task) → count (forwards h c) ts ≤ count (uses c) ts
forwards-uses h c [] = omega arith
forwards-uses h c (watch j pid ∷ ts) = omega (arith, forwards-uses h c ts)
forwards-uses h c (claiming j ∷ ts) = omega (arith, forwards-uses h c ts)
forwards-uses h c (probing j ∷ ts) = omega (arith, forwards-uses h c ts)
forwards-uses h c (dialing j ∷ ts) = omega (arith, forwards-uses h c ts)
forwards-uses h c (forwarding j e ∷ ts) = ground (arith, forwards-uses h c ts)
forwards-uses h c (cleaning j ∷ ts) = omega (arith, forwards-uses h c ts)
forwards-uses h c (listing check ∷ ts) = omega (arith, forwards-uses h c ts)
forwards-uses h c (scanning j check ∷ ts) = omega (arith, forwards-uses h c ts)
forwards-uses h c (liveness j was ∷ ts) = omega (arith, forwards-uses h c ts)
forwards-uses h c (receiving j ∷ ts) = omega (arith, forwards-uses h c ts)

-- After any history of a new daemon whose PIDs are `u32`s, a host that counts as connected has the
-- close channel of exactly one connection task, which is a task of this host.
pub connected_served_once :
    (es : List Event) (h : Text)
    → All InRange es
    → connected_at (get h (run_all init es).registry) ≡ true
    → (c : ℕ) × (close_tx_at (get h (run_all init es).registry) ≡ some c)
      × (count (forwards h c) (run_all init es).tasks ≡ 1)
      × (count (uses c) (run_all init es).tasks ≡ 1)
connected_served_once es h u k =
    let (c, held, served) = connected_served es h u k in
    let v = run_all-Unique init es (record { once = λ c. omega arith; unused = λ c h. refl }) in
    let le = forwards-uses h c (run_all init es).tasks in
    (c, held, omega (arith, served, v.once c, le), omega (arith, served, v.once c, le))
