-- ===== src/Shutdown/Examples.antt =====
-- A daemon that is asked to stop while its Xvfb runs.
use tassh.Shutdown.{
  State, Step, outside, tasks, entering, waiting, serving, timed_out, waits, asked, deadline, Steps,
  done, more, locking,
}
use tassh.Shutdown.Blocked.{IsTask, IsBlocked, shutdown-IsBlocked}
use tassh.Shutdown.Finishes.{Finishes, shutdown-Finishes}
use tassh.Prelude.{◌↔◌, true, inl, ◌≡◌, refl, arith}

abbrev started : State
started = record {
  monitor = entering;
  stop = serving;
  child = true;
  alive = true;
  published = true;
}

abbrev watching : State
watching = record started { monitor = waiting }

-- The monitor comes to this state by its first step.
watching_reached : Step tasks started watching
watching_reached = waits refl (ground arith) refl

watching-IsBlocked : IsBlocked watching
watching-IsBlocked = record { held = refl; up = refl; unfinished = inl refl }

abbrev given_up : State
given_up = record watching { stop = timed_out }

asked_to_stop : Steps IsTask watching given_up
asked_to_stop = more tt (asked refl) (more tt (deadline (inl refl)) done)

-- The state between the two steps, at the lock.
abbrev at_lock : State
at_lock = record watching { stop = locking }

shutdown-Finishes_example :
    (Finishes at_lock ↔ ¬ ((at_lock.monitor ≡ waiting) × (at_lock.alive ≡ true)))
    × ((t : State) → at_lock.monitor ≡ waiting → Step outside at_lock t → Finishes t)
shutdown-Finishes_example = shutdown-Finishes at_lock refl

stays_published : given_up.published ≡ true
stays_published = (shutdown-IsBlocked watching-IsBlocked asked_to_stop).1
