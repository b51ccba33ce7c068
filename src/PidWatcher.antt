-- ===== src/PidWatcher.antt =====
-- src/pid_watcher.rs: when the future of `watch_pid` resolves. What pidfd_open and the process table
-- answer is an argument.
mod Examples
use tassh.Prelude.{Bool, List, [], ◌∷◌, if◌then◌else◌}

-- What `AsyncPidFd::from_pid` returns.
pub data PidFd : Type 0 where
  opened : PidFd
  -- ESRCH: there is no such process
  no_process : PidFd
  other_error : PidFd

pub data Future : Type 0 where
  pending resolved : Future

-- The polls of /proc, each with whether the process is still there.
unfoldable pub poll_proc : List Bool → Future
poll_proc [] = pending
poll_proc (exists ∷ polls) = let rest = poll_proc polls in if exists then rest else resolved

-- `waited` is whether the wait on the pidfd has returned, whatever it returned.
unfoldable pub watch_pid : PidFd → Bool → List Bool → Future
unfolding poll_proc
watch_pid opened waited polls = if waited then resolved else pending
watch_pid no_process waited polls = resolved
watch_pid other_error waited polls = poll_proc polls
