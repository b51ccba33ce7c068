-- ===== src/Discovery.antt =====
-- src/daemon.rs: `discover_existing_ssh_sessions`, from the output of pgrep to the hosts with their
-- processes. The output of the commands is an argument; what is done with a host is in Daemon.
pub mod Grouping
pub mod Order
pub mod Startup
pub mod Ascii
mod Examples
use tassh.Strings.{to_ascii_lowercase, trim, is_empty, before_first}
use tassh.Strings.Numbers.{parse_unsigned}
use tassh.Strings.Words.{lines, split_whitespace}
use tassh.Ssh.{
  Extracted, panicked, host, is_ssh_client_command, any_text, extract_ssh_destination_host,
}
use tassh.Protocol.{u32_max}
use tassh.Daemon.Sections.{contains}
use tassh.Daemon.{Event, discovered}
use tassh.Prelude.{
  ℕ, ◌^◌, List, Text, HashMap, Option, ◌-◌, Bool, if◌then◌else◌, modify, some, [], codes, false,
  ◌∷◌, or_insert, none, map_option, text_eq, not, ◌||◌, and_then,
}

-- A line of pgrep: passed over, a process to a host, or a panic of the whole discovery.
pub data Line : Type 0 where
  skipped : Line
  broken : Line
  session : Text → ℕ → Line

abbrev pub of_extracted : List Text → ℕ → Extracted → Line
of_extracted self_aliases pid panicked = broken
of_extracted self_aliases pid (host none) = skipped
of_extracted self_aliases pid (host (some h)) =
    if any_text self_aliases h then skipped else session h pid

-- At least three words are wanted: a PID, the program and its arguments.
unfoldable pub read_parts : List Text → List Text → Line
unfolding parse_unsigned is_ssh_client_command extract_ssh_destination_host any_text
read_parts self_aliases (pid ∷ program ∷ arg ∷ args) = elim (parse_unsigned u32_max pid) [
  | none ↦ skipped
  | some ssh_pid ↦
      if not (is_ssh_client_command program)
      then skipped
      else of_extracted self_aliases ssh_pid (extract_ssh_destination_host (arg ∷ args))
]
read_parts self_aliases _ = skipped

unfoldable pub read_line : List Text → Text → Line
unfolding read_parts split_whitespace
read_line self_aliases line = read_parts self_aliases (split_whitespace line)

-- HashSet<u32>::insert
unfoldable pub insert_pid : ℕ → List ℕ → List ℕ
unfolding contains
insert_pid pid pids = if contains pids pid then pids else pid ∷ pids

-- `hosts_to_probe.entry(hostname).or_default().insert(ssh_pid)`
unfoldable pub add_session : Text → ℕ → HashMap (List ℕ) → HashMap (List ℕ)
unfolding insert_pid
add_session h pid m = modify h (insert_pid pid) (or_insert h [] m)

abbrev pub add_line : Line → HashMap (List ℕ) → Option (HashMap (List ℕ))
add_line skipped m = some m
add_line broken m = none
add_line (session h pid) m = some (add_session h pid m)

-- The loop over the lines, `none` if it panics.
unfoldable pub group_lines : List Text → List Text → HashMap (List ℕ) → Option (HashMap (List ℕ))
unfolding read_line add_session
group_lines self_aliases [] m = some m
group_lines self_aliases (line ∷ rest) m =
    and_then (add_line (read_line self_aliases line) m) (group_lines self_aliases rest)

-- One task for each host.
unfoldable pub host_events : HashMap (List ℕ) → List Event
host_events [] = []
host_events ((h, pids) ∷ m) = discovered h pids ∷ host_events m

-- `stdout` is the output of pgrep, `none` if it could not be run. The result is what happens to the
-- registry, `none` if the discovery panics.
unfoldable pub discover_existing_ssh_sessions : List Text → Option Text → Option (List Event)
unfolding group_lines host_events lines
discover_existing_ssh_sessions self_aliases none = some []
discover_existing_ssh_sessions self_aliases (some stdout) =
    map_option host_events (group_lines self_aliases (lines stdout) [])

-- The aliases of this machine: `tailscale_ip` and `hostname` are the outputs of the two commands.
abbrev tailscale_alias : Option Text → List Text → List Text
tailscale_alias none aliases = aliases
tailscale_alias (some ip) aliases = to_ascii_lowercase ip ∷ aliases

abbrev hostname_aliases : Option Text → List Text
hostname_aliases none = []
hostname_aliases (some output) =
    let hostname = to_ascii_lowercase (trim output) in
    if is_empty hostname then [] else hostname ∷ before_first b'.' hostname ∷ []

abbrev pub resolve_tailscale_ip : Option Text → Option Text
resolve_tailscale_ip none = none
resolve_tailscale_ip (some output) = let ip = trim output in if is_empty ip then none else some ip

unfoldable pub discover_local_aliases : Option Text → Option Text → List Text
unfolding to_ascii_lowercase trim before_first
discover_local_aliases tailscale_output hostname_output =
    codes "localhost"
    ∷ codes "127.0.0.1"
    ∷ tailscale_alias (resolve_tailscale_ip tailscale_output) (hostname_aliases hostname_output)
