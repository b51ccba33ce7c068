-- ===== src/Display/Examples.antt =====
-- The theorems about src/display.rs at concrete rounds.
use tassh.Display.{Round, exited, gave_up, monitor_xvfb}
use tassh.Display.Backoff.{monitor_xvfb_survives}
use tassh.Prelude.{refl, inr, true, false, ◌∷◌, [], ◌≢◌}

abbrev down : Round
down = record { wait = exited; respawned = false }

abbrev up : Round
up = record { wait = exited; respawned = true }

monitor_xvfb_survives_example : (monitor_xvfb 0 (down ∷ down ∷ down ∷ up ∷ down ∷ [])).1 ≢ gave_up
monitor_xvfb_survives_example =
    monitor_xvfb_survives 3 0 (down ∷ down ∷ down ∷ up ∷ down ∷ []) refl
      (inr (refl, inr (refl, inr (refl, (refl, inr (refl, tt))))))
