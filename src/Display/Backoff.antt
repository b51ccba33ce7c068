-- ===== src/Display/Backoff.antt =====
-- How long `monitor_xvfb` of src/display.rs waits, and when it gives up.
use tassh.Display.{
  wait_error, taken, monitor_round, Round, Wait, exited, Ending, gave_up, after_exit, max_attempts,
  monitor_xvfb,
}
use tassh.Prelude.{
  refl, true, false, inl, inr, Bool-cases, ℕ, zero, suc, ◌≤◌, List, ◌≡◌, ◌^◌, All, arith, [], leb,
  ◌+◌, ◌⊎◌, ◌<◌, ◌≢◌, ◌∷◌,
}

power-le : (n : ℕ) → n ≤ 4 → 2 ^ n ≤ 16
power-le zero h = omega arith
power-le (suc zero) h = omega arith
power-le (suc (suc zero)) h = omega arith
power-le (suc (suc (suc zero))) h = omega arith
power-le (suc (suc (suc (suc zero)))) h = omega arith
power-le (suc (suc (suc (suc (suc n))))) h = absurd (omega arith)

monitor_round-le :
    (n : ℕ) (w : Wait) (rest : List ℕ × Ending)
    → All (λ s. s ≤ 16) rest.0
    → All (λ s. s ≤ 16) (monitor_round n w rest).0
unfolding monitor_round
monitor_round-le n exited (sleeps, ending) h = elim (Bool-cases (leb max_attempts n)) [
  | inl e ↦ rw (e, monitor_round) tt
  | inr e ↦ rw (e, monitor_round) (power-le n (ground arith), h)
]
monitor_round-le n wait_error rest h = tt
monitor_round-le n taken rest h = tt

-- No restart is delayed by more than 16 seconds, whatever happens.
pub sleeps-le :
    (attempts : ℕ) (rounds : List Round) → All (λ s. s ≤ 16) (monitor_xvfb attempts rounds).0
unfolding monitor_xvfb
sleeps-le attempts [] = tt
sleeps-le attempts (r ∷ rounds) =
    monitor_round-le (attempts + 1) r.wait
      (monitor_xvfb (after_exit (attempts + 1) r.respawned) rounds)
      (sleeps-le (after_exit (attempts + 1) r.respawned) rounds)

-- The child exits, and its restart fails.
abbrev pub Fails : Round → Type 0
Fails r = (r.wait ≡ exited) × (r.respawned ≡ false)

-- When Xvfb exits and four restarts fail in a row, delayed by 2, 4, 8 and 16 seconds, the monitor
-- gives up: it makes no fifth restart.
monitor_xvfb-gives_up :
    (a b c d e : Round) (rest : List Round)
    → Fails a
    → Fails b
    → Fails c
    → Fails d
    → e.wait ≡ exited
    → monitor_xvfb 0 (a ∷ b ∷ c ∷ d ∷ e ∷ rest) ≡ (2 ∷ 4 ∷ 8 ∷ 16 ∷ [], gave_up)
unfolding monitor_xvfb
monitor_xvfb-gives_up a b c d e rest fa fb fc fd fe = ground arith

-- At most k restarts fail before the next one that succeeds, and at most three after each that does.
abbrev pub Recovers : ℕ → List Round → Type 0
Recovers k [] = Unit
Recovers zero (r ∷ rounds) = (r.respawned ≡ true) × Recovers 3 rounds
Recovers (suc k) (r ∷ rounds) =
    ((r.respawned ≡ true) × Recovers 3 rounds) ⊎ ((r.respawned ≡ false) × Recovers k rounds)

monitor_round_goes_on :
    (n : ℕ) (w : Wait) (rest : List ℕ × Ending)
    → n < max_attempts
    → rest.1 ≢ gave_up
    → (monitor_round n w rest).1 ≢ gave_up
unfolding monitor_round
monitor_round_goes_on n exited (sleeps, ending) h ne = ground arith
monitor_round_goes_on n wait_error rest h ne = ground arith
monitor_round_goes_on n taken rest h ne = ground arith

-- If no more than three restarts in a row ever fail, the monitor never gives up.
pub monitor_xvfb_survives :
    (k attempts : ℕ) (rounds : List Round)
    → attempts + k ≡ 3
    → Recovers k rounds
    → (monitor_xvfb attempts rounds).1 ≢ gave_up
unfolding monitor_xvfb
monitor_xvfb_survives k attempts [] h v = ground arith
monitor_xvfb_survives zero attempts (r ∷ rounds) h (up, v) =
    monitor_round_goes_on (attempts + 1) r.wait _ (omega arith)
      (rw up (monitor_xvfb_survives 3 0 rounds refl v))
monitor_xvfb_survives (suc k) attempts (r ∷ rounds) h (inl (up, v)) =
    monitor_round_goes_on (attempts + 1) r.wait _ (omega arith)
      (rw up (monitor_xvfb_survives 3 0 rounds refl v))
monitor_xvfb_survives (suc k) attempts (r ∷ rounds) h (inr (down, v)) =
    monitor_round_goes_on (attempts + 1) r.wait _ (omega arith)
      (rw down (monitor_xvfb_survives k (attempts + 1) rounds (omega arith) v))
