-- ===== src/Instance/Examples.antt =====
-- A daemon after a crash, and a second one beside it.
use tassh.Ipc.{handle_ipc_connection}
use tassh.Ipc.Tagged.{tagged}
use tassh.Instance.Life.{
  Process, request, accept_failed, sigterm, returned, run_process, run_processes,
}
use tassh.Instance.Again.{started_again}
use tassh.Prelude.{map, false, ◌∷◌, ◌≡◌, ok, err, some, none, true, refl, [], codes}
use tassh.Instance.{missing, System, Home, live, stale, run_daemon, bring_up, already_running}
use tassh.Instance.Second.{second_start_unpublishes}
use tassh.Protocol.{xvfb}
use tassh.Display.{DisplayManager, detect_and_init}
use tassh.Locks.{display_file}

abbrev granted : System
granted = record {
  directory = true;
  wayland_display = none;
  display = none;
  spawned = some (record { child = 3; display_str = codes ":7" });
  publish = true;
  removed = true;
  bound = true;
}

abbrev crashed : Home
crashed = record { published = some []; socket = stale }

abbrev own_display : DisplayManager
own_display = record { env = xvfb; display_str = codes ":7"; xvfb_child = some 3 }

started : (run_daemon granted crashed).1 ≡ ok own_display
unfolding run_daemon bring_up detect_and_init
started = refl

granted_display :
    detect_and_init true granted.wayland_display granted.display granted.spawned granted.publish
    ≡ ok own_display
unfolding detect_and_init
granted_display = refl

second_start_unpublishes_example :
    let serving = (run_daemon granted crashed).0 in
    let after = (run_daemon granted serving).0 in
    (serving.published ≡ some (display_file (codes ":7")))
    × ((run_daemon granted serving).1 ≡ err already_running)
    × (after.socket ≡ live)
    × (after.published ≡ none)
second_start_unpublishes_example =
    second_start_unpublishes granted granted crashed own_display started refl

-- A process that is killed while it serves.
abbrev killed_process : Process
killed_process = record {
  system = granted;
  handler = true;
  arrivals = request [] ∷ [];
  published = some (display_file (codes ":7"));
  in_time = true;
}

-- A process that is ended by a signal, and whose shutdown does not keep its deadline.
abbrev ended_process : Process
ended_process = record {
  system = granted;
  handler = true;
  arrivals = request (3 ∷ 10 ∷ []) ∷ accept_failed ∷ sigterm ∷ request [] ∷ [];
  published = some (display_file (codes ":7"));
  in_time = false;
}

started_again_example :
    run_process tagged ended_process
      (run_processes tagged (killed_process ∷ ended_process ∷ []) crashed)
    ≡ (
      record { published = some (display_file (codes ":7")); socket = missing },
      returned (map (handle_ipc_connection tagged) ((3 ∷ 10 ∷ []) ∷ [])),
    )
started_again_example =
    started_again tagged (killed_process ∷ ended_process ∷ []) ended_process crashed own_display
      (request (3 ∷ 10 ∷ []) ∷ accept_failed ∷ []) (request [] ∷ []) sigterm refl refl
      granted_display refl refl refl refl (refl, (refl, tt)) refl
