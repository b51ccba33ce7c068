-- ===== src/PidWatcher/Examples.antt =====
-- A process that is polled three times.
use tassh.PidWatcher.{other_error, pending, resolved, watch_pid, poll_proc}
use tassh.Prelude.{◌≡◌, true, false, [], ◌∷◌, refl}

polled :
    (watch_pid other_error false (true ∷ true ∷ []) ≡ pending)
    × (watch_pid other_error false (true ∷ true ∷ false ∷ []) ≡ resolved)
unfolding watch_pid poll_proc
polled = (refl, refl)
