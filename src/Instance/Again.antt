-- ===== src/Instance/Again.antt =====
-- A daemon is started again, after whatever became of the ones before it.
use tassh.Instance.{System, Home, live, run_daemon, bring_up, is_live, missing}
use tassh.Instance.Life.{
  returned, Wakeup, request, accept_failed, sigterm, ctrl_c, Process, serve, run_process,
  run_processes,
}
use tassh.Ipc.{Json, handle_ipc_connection}
use tassh.Display.{DisplayManager, detect_and_init}
use tassh.Locks.{display_file}
use tassh.Prelude.{
  ◌≡◌, ok, some, true, false, arith, refl, List, Text, [], ◌∷◌, ◌++◌, map, Bool, All, ap,
  if◌then◌else◌, none, ◌∙◌,
}

-- Whether the loop ends with it.
abbrev pub is_signal : Wakeup → Bool
is_signal sigterm = true
is_signal ctrl_c = true
is_signal _ = false

abbrev pub requests : List Wakeup → List Text
requests [] = []
requests (request s ∷ rest) = s ∷ requests rest
requests (_ ∷ rest) = requests rest

-- A daemon that comes to serve binds the socket: no process of the past answers on it.
run_daemon-granted :
    (sys : System) (h : Home) (m : DisplayManager)
    → is_live h.socket ≡ false
    → sys.directory ≡ true
    → detect_and_init true sys.wayland_display sys.display sys.spawned sys.publish ≡ ok m
    → sys.removed ≡ true
    → sys.bound ≡ true
    → run_daemon sys h
      ≡ (record { published = some (display_file m.display_str); socket = live }, ok m)
unfolding run_daemon bring_up
run_daemon-granted sys h m s d i f b = ground arith

bring_up-dead :
    (sys : System) (h : Home)
    → is_live h.socket ≡ false
    → sys.bound ≡ false
    → is_live (bring_up sys h).0.socket ≡ false
unfolding bring_up
bring_up-dead sys h s b = ground arith

module _ (J : Json) where
  run_process-dead :
      (p : Process) (h : Home)
      → is_live h.socket ≡ false
      → is_live (run_process J p h).0.socket ≡ false
  unfolding run_process run_daemon bring_up
  run_process-dead p h s = ground (arith, s)

  run_processes-dead :
      (ps : List Process) (h : Home)
      → is_live h.socket ≡ false
      → is_live (run_processes J ps h).socket ≡ false
  unfolding run_processes
  run_processes-dead [] h s = s
  run_processes-dead (p ∷ ps) h s =
      run_processes-dead ps (run_process J p h).0 (run_process-dead p h s)

  serve-signal :
      (before after : List Wakeup) (signal : Wakeup)
      → All (λ a. is_signal a ≡ false) before
      → is_signal signal ≡ true
      → serve J (before ++ signal ∷ after) ≡ (map (handle_ipc_connection J) (requests before), true)
  unfolding serve
  serve-signal [] after sigterm k e = refl
  serve-signal [] after ctrl_c k e = refl
  serve-signal [] after (request s) k e = absurd (cc e)
  serve-signal [] after accept_failed k e = absurd (cc e)
  serve-signal (request s ∷ before) after signal (_, k) e =
      ap (λ r. (handle_ipc_connection J s ∷ r.0, r.1)) (serve-signal before after signal k e)
  serve-signal (accept_failed ∷ before) after signal (_, k) e = serve-signal before after signal k e
  serve-signal (sigterm ∷ before) after signal (q, k) e = absurd (cc q)
  serve-signal (ctrl_c ∷ before) after signal (q, k) e = absurd (cc q)

  -- After any processes one after the other, however each of them ended, a daemon can be started again:
  -- if no daemon answered on the socket before the first of them, and the system grants the start (the
  -- directory and the display come up, a socket that is left behind can be removed, a path without a file
  -- can be bound, and the handler installed), the new process reacts to every connection that arrives before the first signal, and to none behind it,
  -- goes on when `accept` fails, and is ended by the signal with the socket removed. The published
  -- display is removed exactly if the shutdown of the display keeps its deadline.
  pub started_again :
      (ps : List Process) (p : Process) (h : Home) (m : DisplayManager)
      → (before after : List Wakeup) (signal : Wakeup) → is_live h.socket ≡ false
      → p.system.directory ≡ true
      → detect_and_init true p.system.wayland_display p.system.display p.system.spawned
          p.system.publish
        ≡ ok m
      → p.system.removed ≡ true
      → p.system.bound ≡ true
      → p.handler ≡ true
      → p.arrivals ≡ before ++ signal ∷ after
      → All (λ a. is_signal a ≡ false) before
      → is_signal signal ≡ true
      → run_process J p (run_processes J ps h) ≡ (
        record { published = if p.in_time then none else p.published; socket = missing },
        returned (map (handle_ipc_connection J) (requests before)),
      )
  unfolding run_process
  started_again ps p h m before after signal dead d i f b g e k s =
      let start =
        run_daemon-granted p.system (run_processes J ps h) m (run_processes-dead ps h dead) d i f
          b in
      let loop = ap (serve J) e ∙ serve-signal before after signal k s in
      ground (arith, start, loop, g)
