-- ===== src/Discovery/Startup.antt =====
-- The startup of src/daemon.rs: the discovery of the running ssh processes, done on the registry.
use tassh.Strings.Words.{lines}
use tassh.Peer.{get}
use tassh.Daemon.Sections.{contains}
use tassh.Daemon.Valid.{pid_mod}
use tassh.Daemon.Invariant.{InRange}
use tassh.Daemon.Log.{Action, is_open, log_of, watched_at, open_all, record_event}
use tassh.Daemon.Watched.{run_all_refines, is_open-open_all}
use tassh.Daemon.{Daemon, Event, discovered, init, run_all, step}
use tassh.Discovery.{discover_existing_ssh_sessions, group_lines, host_events}
use tassh.Discovery.Grouping.{
  mentions, pids_at, group_lines-contains, group_lines-WellFormed, AllValues, some_same,
}
use tassh.Prelude.{
  ℕ, HashMap, Text, List, All, text_eq, lookup, some, ◌<◌, ◌≡◌, KeysDistinct, true, ◌||◌,
  Option-cases, none, [], subst, inl, text_eq_iff, arith, inr, ◌∷◌, refl, Bool, sym, ap, map_option,
  ◌∙◌,
}

host_events-InRange :
    (m : HashMap (List ℕ)) → AllValues (All (λ pid. pid < pid_mod)) m → All InRange (host_events m)
unfolding host_events
host_events-InRange [] a = tt
host_events-InRange ((h, pids) ∷ m) (p, a) = (p, host_events-InRange m a)

lookup_same :
    (h j : Text) (m : HashMap (List ℕ)) → text_eq j h ≡ true → lookup j m ≡ none → lookup h m ≡ none
lookup_same h j m e q = subst (λ k. lookup k m ≡ none) ((text_eq_iff j h).0 e) q

is_open-host_events :
    (d : Daemon) (m : HashMap (List ℕ)) (log : List Action) (h : Text) (pid : ℕ)
    → KeysDistinct m
    → is_open (log_of d (host_events m) log) h pid
      ≡ (contains (pids_at (lookup h m)) pid || is_open log h pid)
unfolding host_events log_of record_event contains lookup
is_open-host_events d [] log h pid k = refl
is_open-host_events d ((j, pids) ∷ m) log h pid (out, k) = ground (
  arith,
  is_open-host_events (step d (discovered j pids)) m (open_all j pids log) h pid k,
  is_open-open_all j pids log h pid,
  lookup_same h j m,
)

found :
    (m : HashMap (List ℕ)) (self_aliases ls : List Text) (h : Text) (pid : ℕ)
    → {watched logged : Bool} → watched ≡ logged
    → logged ≡ (contains (pids_at (lookup h m)) pid || is_open [] h pid)
    → contains (pids_at (lookup h m)) pid
      ≡ (contains (pids_at (lookup {V = List ℕ} h [])) pid || mentions self_aliases ls h pid)
    → watched ≡ mentions self_aliases ls h pid
unfolding lookup contains is_open
found m self_aliases ls h pid r o g = ground arith

-- When pgrep ran and the discovery did not panic, a new daemon watches after it exactly the processes
-- that pgrep lists as ssh sessions to other hosts: a PID for a host if some line has this PID, an ssh
-- program and arguments that name the host, and the host is no alias of the machine itself.
pub discovery_watches :
    (self_aliases : List Text) (stdout h : Text) (pid : ℕ) (es : List Event)
    → discover_existing_ssh_sessions self_aliases (some stdout) ≡ some es
    → contains (watched_at (get h (run_all init es).registry)) pid
      ≡ mentions self_aliases (lines stdout) h pid
unfolding discover_existing_ssh_sessions
discovery_watches self_aliases stdout h pid es e =
    elim (Option-cases (group_lines self_aliases (lines stdout) [])) [
      | inl q ↦ absurd (ground arith)
      | inr (m, q) ↦
          let w =
            group_lines-WellFormed self_aliases (lines stdout) [] m q
              (record { keys = tt; small = tt }) in
          let r = run_all_refines (host_events m) h pid (host_events-InRange m w.small) in
          let o = is_open-host_events init m [] h pid w.keys in
          let g = group_lines-contains self_aliases (lines stdout) [] m h pid q in
          let same = some_same (sym (ap (map_option host_events) q) ∙ e) in
          subst
            (λ x.
              contains (watched_at (get h (run_all init x).registry)) pid
              ≡ mentions self_aliases (lines stdout) h pid)
            same (found m self_aliases (lines stdout) h pid r o g)
    ]
