-- ===== src/Instance/Second.antt =====
-- A second start beside a daemon that serves.
use tassh.Instance.{System, Home, live, remove_socket, bring_up, run_daemon, already_running}
use tassh.Display.{DisplayManager}
use tassh.Locks.{display_file}
use tassh.Prelude.{◌≡◌, ok, err, some, none, true, arith}

bring_up-serves :
    (sys : System) (h : Home) (m : DisplayManager)
    → (bring_up sys h).1 ≡ ok m
    → ((bring_up sys h).0.socket ≡ live)
      × ((bring_up sys h).0.published ≡ some (display_file m.display_str))
unfolding bring_up
bring_up-serves sys h m e = ground arith

run_daemon-serves :
    (sys : System) (h : Home) (m : DisplayManager)
    → (run_daemon sys h).1 ≡ ok m
    → ((run_daemon sys h).0.socket ≡ live)
      × ((run_daemon sys h).0.published ≡ some (display_file m.display_str))
unfolding run_daemon
run_daemon-serves sys h m e =
    ground
      (arith, bring_up-serves sys (remove_socket sys.removed (record h { published = none })) m)

-- A daemon that serves has published its display. A second start beside it fails and leaves its socket
-- alone, but removes the published display.
pub second_start_unpublishes :
    (first second : System) (h : Home) (m : DisplayManager)
    → (run_daemon first h).1 ≡ ok m
    → second.directory ≡ true
    → let serving = (run_daemon first h).0 in
      let after = (run_daemon second serving).0 in
      (serving.published ≡ some (display_file m.display_str))
      × ((run_daemon second serving).1 ≡ err already_running)
      × (after.socket ≡ live)
      × (after.published ≡ none)
unfolding run_daemon
second_start_unpublishes first second h m e d = ground (arith, run_daemon-serves first h m e)
