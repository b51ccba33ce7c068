-- ===== src/Shutdown/Blocked.antt =====
-- src/display.rs: a shutdown while Xvfb runs.
use tassh.Shutdown.{
  waiting, serving, locking, timed_out, State, Actor, outside, tasks, Step, waits, sees_none, wakes,
  gives_up, fails_start, starts, stores, asked, takes, finds_none, kills, removes, deadline, Steps,
  done, more,
}
use tassh.Prelude.{◌≡◌, true, inr, ◌∙◌, ◌⊎◌, inl, arith, refl}

abbrev pub IsTask : Actor → Type 0
IsTask tasks = Unit
IsTask outside = ⊥

-- The monitor waits for a live Xvfb, and the daemon serves, waits for the lock, or gave up on it.
pub record IsBlocked (s : State) : Type 0 where
  pub held : s.monitor ≡ waiting
  pub up : s.alive ≡ true
  pub unfinished : (s.stop ≡ serving) ⊎ ((s.stop ≡ locking) ⊎ (s.stop ≡ timed_out))

Step-IsBlocked :
    {s t : State} → Step tasks s t → IsBlocked s → IsBlocked t × (t.published ≡ s.published)
Step-IsBlocked (waits e _ _) b = absurd (cc (e, b.held))
Step-IsBlocked (sees_none e _ _) b = absurd (cc (e, b.held))
Step-IsBlocked (wakes _ e) b = absurd (cc (e, b.up))
Step-IsBlocked (gives_up e) b = absurd (cc (e, b.held))
Step-IsBlocked (fails_start e) b = absurd (cc (e, b.held))
Step-IsBlocked (starts ok e) b = absurd (cc (e, b.held))
Step-IsBlocked (stores e _) b = absurd (cc (e, b.held))
Step-IsBlocked (asked e) b =
    (record { held = b.held; up = b.up; unfinished = inr (inl refl) }, refl)
Step-IsBlocked (takes _ free _) b = absurd (free b.held)
Step-IsBlocked (finds_none _ free _) b = absurd (free b.held)
Step-IsBlocked (kills e) b = absurd (ground (arith, e, b.unfinished))
Step-IsBlocked (removes e) b = absurd (ground (arith, e, b.unfinished))
Step-IsBlocked (deadline e) b =
    (record { held = b.held; up = b.up; unfinished = inr (inr refl) }, refl)

-- Once the monitor waits for an Xvfb that is alive, nothing that the daemon does ends its shutdown before
-- Xvfb exits or the wait for it fails: the shutdown stays at the lock until its deadline, Xvfb is left running, and the display
-- stays published.
pub shutdown-IsBlocked :
    {s t : State} → IsBlocked s → Steps IsTask s t → IsBlocked t × (t.published ≡ s.published)
shutdown-IsBlocked b done = (b, refl)
shutdown-IsBlocked b (more {a = tasks} p x rest) =
    let (c, e) = Step-IsBlocked x b in let (d, f) = shutdown-IsBlocked c rest in (d, f ∙ e)
shutdown-IsBlocked b (more {a = outside} p x rest) = absurd p
