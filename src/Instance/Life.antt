-- ===== src/Instance/Life.antt =====
-- src/daemon.rs: the whole of `run_daemon`, from its start over the loop on the Unix socket and the
-- signals to the cleanup. Each connection is handled by a task of its own; what the tasks do with the
-- registry is the subject of Daemon. A process that is killed, or ended by the monitor of Xvfb, leaves
-- the loop without the cleanup.
use tassh.Instance.{System, Home, StartError, run_daemon, missing, stale}
use tassh.Ipc.{Json, Reaction, handle_ipc_connection}
use tassh.Prelude.{Text, Option, Bool, List, ok, err, none, true, false, if◌then◌else◌, [], ◌∷◌}

-- What the loop waits for: a connection with what it writes, or an error of `accept`, or a signal.
pub data Wakeup : Type 0 where
  request : Text → Wakeup
  accept_failed sigterm ctrl_c : Wakeup

-- One process.
pub record Process : Type 0 where
  pub system : System
  -- whether the handler of SIGTERM is installed
  pub handler : Bool
  pub arrivals : List Wakeup
  -- ~/.tassh/display behind the loop: what the monitor and other starts made of it meanwhile
  pub published : Option Text
  -- whether the shutdown of the display keeps its deadline
  pub in_time : Bool

pub data Outcome : Type 0 where
  failed : StartError → Outcome
  no_handler : Outcome
  returned lost : List Reaction → Outcome

-- A socket whose process is gone.
abbrev pub abandon : Home → Home
abandon h = record h { socket = stale }

abbrev pub cleanup : Bool → Home → Home
cleanup in_time h = record h { published = if in_time then none else h.published; socket = missing }

module _ (J : Json) where
  -- The reactions to the connections in the order of their arrival, and whether a signal ended the loop.
  unfoldable pub serve : List Wakeup → List Reaction × Bool
  serve [] = ([], false)
  serve (request s ∷ rest) =
      let (reactions, signalled) = serve rest in (handle_ipc_connection J s ∷ reactions, signalled)
  serve (accept_failed ∷ rest) = serve rest
  serve (sigterm ∷ rest) = ([], true)
  serve (ctrl_c ∷ rest) = ([], true)

  abbrev pub leave : Bool → Home → List Reaction × Bool → Home × Outcome
  leave in_time h (reactions, true) = (cleanup in_time h, returned reactions)
  leave in_time h (reactions, false) = (abandon h, lost reactions)

  unfoldable pub run_process : Process → Home → Home × Outcome
  unfolding serve
  run_process p h =
      let (home, result) = run_daemon p.system h in
      elim result [
        | err e ↦ (home, failed e)
        | ok m ↦
            if p.handler
            then leave p.in_time (record home { published = p.published }) (serve p.arrivals)
            else (abandon home, no_handler)
      ]

  -- One process after the other.
  unfoldable pub run_processes : List Process → Home → Home
  unfolding run_process
  run_processes [] h = h
  run_processes (p ∷ rest) h = run_processes rest (run_process p h).0
