-- ===== src/Daemon/Log.antt =====
-- What src/daemon.rs promises of the SSH processes that it watches, apart from how the registry keeps
-- them: a log of the sessions that were opened and closed, and which of them are open.
use tassh.Peer.{PeerState}
use tassh.Daemon.{Daemon, Task, watch, Event, connect, disconnect, discovered, run, step, pick}
use tassh.Prelude.{
  ℕ, Text, List, Option, Bool, [], some, false, none, text_eq, ◌&&◌, ◌==◌, ◌||◌, not, ◌∷◌,
}

pub data Action : Type 0 where
  opened closed : Text → ℕ → Action

-- The latest action on a session decides; the log has the latest first.
unfoldable pub is_open : List Action → Text → ℕ → Bool
is_open [] h pid = false
is_open (opened j q ∷ log) h pid = (text_eq j h && q == pid) || is_open log h pid
is_open (closed j q ∷ log) h pid = not (text_eq j h && q == pid) && is_open log h pid

abbrev pub open_all : Text → List ℕ → List Action → List Action
open_all h [] log = log
open_all h (pid ∷ pids) log = open_all h pids (opened h pid ∷ log)

abbrev pub exit_of : Option (Task × List Task) → List Action → List Action
exit_of (some (watch h pid, rest)) log = closed h pid ∷ log
exit_of _ log = log

-- What an event does to the sessions: the exit of a process is the section of the task that watches it.
unfoldable pub record_event : Daemon → Event → List Action → List Action
record_event d (connect h pid) log = opened h pid ∷ log
record_event d (disconnect h pid) log = closed h pid ∷ log
record_event d (discovered h pids) log = open_all h pids log
record_event d (run n b) log = exit_of (pick n d.tasks) log
record_event d _ log = log

unfoldable pub log_of : Daemon → List Event → List Action → List Action
unfolding record_event
log_of d [] log = log
log_of d (e ∷ es) log = log_of (step d e) es (record_event d e log)

abbrev pub watched_at : Option PeerState → List ℕ
watched_at none = []
watched_at (some p) = p.watched_pids
