-- ===== src/Shutdown/Finishes.antt =====
-- src/display.rs: when a shutdown comes to its end.
use tassh.Shutdown.{
  Monitor, entering, waiting, backing_off, storing, stopped, locking, killed, finished, State,
  outside, wait_fails, exits, tasks, Step, wakes, takes, finds_none, kills, removes, Steps, done,
  more,
}
use tassh.Shutdown.Blocked.{IsTask, shutdown-IsBlocked}
use tassh.Prelude.{◌≡◌, ◌≢◌, true, false, inl, inr, ◌⊎◌, ◌↔◌, Bool-cases, arith, refl}

-- The daemon can finish the shutdown by itself.
abbrev pub Finishes : State → Type 0
Finishes s = (t : State) × Steps IsTask s t × (t.stop ≡ finished) × (t.published ≡ false)

killed-Finishes : (s : State) → s.stop ≡ killed → Finishes s
killed-Finishes s e =
    (record s { stop = finished; published = false }, more tt (removes e) done, refl, refl)

Step-Finishes : {s t : State} → Step tasks s t → Finishes t → Finishes s
Step-Finishes x (u, steps, e, p) = (u, more tt x steps, e, p)

free-Finishes : (s : State) → s.stop ≡ locking → s.monitor ≢ waiting → Finishes s
free-Finishes s e free = elim (Bool-cases s.child) [
  | inl some' ↦
      Step-Finishes (takes e free some') (Step-Finishes (kills refl) (killed-Finishes _ refl))
  | inr none' ↦ Step-Finishes (finds_none e free none') (killed-Finishes _ refl)
]

exited-Finishes :
    (s : State) → s.stop ≡ locking → s.monitor ≡ waiting → s.alive ≡ false → Finishes s
exited-Finishes s e m dead = Step-Finishes (wakes m dead) (free-Finishes _ e (λ q. cc q))

waiting_or_not : (m : Monitor) → (m ≡ waiting) ⊎ (m ≢ waiting)
waiting_or_not entering = inr (λ q. cc q)
waiting_or_not waiting = inl refl
waiting_or_not backing_off = inr (λ q. cc q)
waiting_or_not storing = inr (λ q. cc q)
waiting_or_not stopped = inr (λ q. cc q)

Outside-Finishes :
    {s t : State} → s.stop ≡ locking → s.monitor ≡ waiting → Step outside s t → Finishes t
Outside-Finishes e m (exits a) = exited-Finishes _ e m refl
Outside-Finishes e m (wait_fails w) = free-Finishes _ e (λ q. cc q)

-- A shutdown that is at the lock can be finished by the steps of the daemon alone, with the published display
-- removed, exactly if the monitor does not wait for an Xvfb that is alive. While it does, each step that
-- comes from outside, the exit of Xvfb or an error of the wait for it, lets the daemon finish.
pub shutdown-Finishes :
    (s : State)
    → s.stop ≡ locking
    → (Finishes s ↔ ¬ ((s.monitor ≡ waiting) × (s.alive ≡ true)))
      × ((t : State) → s.monitor ≡ waiting → Step outside s t → Finishes t)
shutdown-Finishes s e = ((forth, back), λ t m x. Outside-Finishes e m x)
  where
    forth : Finishes s → ¬ ((s.monitor ≡ waiting) × (s.alive ≡ true))
    forth (t, steps, f, _) (m, a) =
        let (b, _) =
          shutdown-IsBlocked (record { held = m; up = a; unfinished = inr (inl e) }) steps in
        absurd (ground (arith, b.unfinished, f))

    back : ¬ ((s.monitor ≡ waiting) × (s.alive ≡ true)) → Finishes s
    back h = elim (waiting_or_not s.monitor) [
      | inr free ↦ free-Finishes s e free
      | inl m ↦ elim (Bool-cases s.alive) [
        | inl a ↦ absurd (h (m, a))
        | inr dead ↦ exited-Finishes s e m dead
      ]
    ]
