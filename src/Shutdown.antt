-- ===== src/Shutdown.antt =====
-- src/display.rs: `DisplayManager::shutdown` beside the task of `monitor_xvfb`, and the deadline that
-- `run_daemon` of src/daemon.rs sets it. Both take the mutex of the child; the monitor holds it while it
-- waits for Xvfb to exit. `wait` returns a status when Xvfb has exited and not before, and may fail at any
-- time.
pub mod Blocked
pub mod Finishes
mod Examples
use tassh.Prelude.{ℕ, Bool, ◌≡◌, true, false, ◌≢◌, if◌then◌else◌, ◌⊎◌}

-- Where the monitor stands.
pub data Monitor : Type 0 where
  -- before the lock at the head of the loop
  entering : Monitor
  -- in `child.wait()`, with the lock
  waiting : Monitor
  -- between an exit and the next start, without the lock
  backing_off : Monitor
  -- before the lock that stores the new child
  storing : Monitor
  stopped : Monitor

-- Where `run_daemon` stands.
pub data Stop : Type 0 where
  serving : Stop
  -- in `shutdown`, before its lock
  locking : Stop
  -- in `child.kill()`, with the lock and the child
  killing : Stop
  -- behind the lock, with no child left
  killed : Stop
  -- the published display is removed
  finished : Stop
  -- the deadline of two seconds is over
  timed_out : Stop
  -- the monitor ended the whole daemon
  exited : Stop

pub record State : Type 0 where
  pub monitor : Monitor
  pub stop : Stop
  -- whether the mutex holds a child
  pub child : Bool
  -- whether the Xvfb that the mutex holds, or held until it was taken, is alive
  pub alive : Bool
  -- whether ~/.tassh/display is there
  pub published : Bool

-- What comes from outside the daemon, and what its two tasks do.
pub data Actor : Type 0 where
  outside tasks : Actor

pub data Step : Actor → State → State → Type 0 where
  exits : {s : State} → s.alive ≡ true → Step outside s (record s { alive = false })
  -- `wait` fails, which ends the monitor and frees the lock
  wait_fails : {s : State} → s.monitor ≡ waiting → Step outside s (record s { monitor = stopped })
  waits :
      {s : State}
      → s.monitor ≡ entering
      → s.stop ≢ killing
      → s.child ≡ true
      → Step tasks s (record s { monitor = waiting })
  sees_none :
      {s : State}
      → s.monitor ≡ entering
      → s.stop ≢ killing
      → s.child ≡ false
      → Step tasks s (record s { monitor = stopped })
  wakes :
      {s : State}
      → s.monitor ≡ waiting
      → s.alive ≡ false
      → Step tasks s (record s { monitor = backing_off })
  gives_up :
      {s : State}
      → s.monitor ≡ backing_off
      → Step tasks s (record s { monitor = stopped; stop = exited })
  fails_start :
      {s : State} → s.monitor ≡ backing_off → Step tasks s (record s { monitor = entering })
  -- `ok`: whether the display is published again
  starts :
      {s : State}
      → (ok : Bool) → s.monitor ≡ backing_off
      → Step tasks s (record s { monitor = storing; published = if ok then true else s.published })
  stores :
      {s : State}
      → s.monitor ≡ storing
      → s.stop ≢ killing
      → Step tasks s (record s { monitor = entering; child = true; alive = true })
  asked : {s : State} → s.stop ≡ serving → Step tasks s (record s { stop = locking })
  -- the lock is free unless the monitor waits
  takes :
      {s : State}
      → s.stop ≡ locking
      → s.monitor ≢ waiting
      → s.child ≡ true
      → Step tasks s (record s { stop = killing; child = false })
  finds_none :
      {s : State}
      → s.stop ≡ locking
      → s.monitor ≢ waiting
      → s.child ≡ false
      → Step tasks s (record s { stop = killed })
  kills : {s : State} → s.stop ≡ killing → Step tasks s (record s { stop = killed; alive = false })
  removes :
      {s : State} → s.stop ≡ killed → Step tasks s (record s { stop = finished; published = false })
  deadline :
      {s : State}
      → (s.stop ≡ locking) ⊎ (s.stop ≡ killing)
      → Step tasks s (record s { stop = timed_out })

-- Steps one after the other, by the given actors only.
pub data Steps (P : Actor → Type 0) : State → State → Type 0 where
  done : {s : State} → Steps P s s
  more : {a : Actor} {s t u : State} → P a → Step a s t → Steps P t u → Steps P s u
