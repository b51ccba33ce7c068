-- ===== src/Lib.antt =====
-- tassh: a verification library for the clipboard relay daemon of this repository.
--
-- tassh watches the local clipboard and sends each new image to the daemons on the hosts to which ssh
-- sessions are open; a daemon that receives an image puts it on its own clipboard. The wrapper around
-- ssh tells the local daemon of a session over a Unix socket. The daemon keeps a registry of peers, one
-- for each hostname, with the sessions that are open; it probes the host of a session for a daemon,
-- connects to it while sessions are left, and forwards each image over that connection as a frame.
--
-- Parts, and where they stand:
--   Prelude     Boolean tests on the native numbers, lists, texts as lists of character codes,
--               results, and maps as association lists, with their lemmas
--   Protocol    src/protocol.rs: `Frame`, `to_bytes` and `from_bytes` with their errors. A byte is a
--               number below 256
--   Transport   src/transport.rs: `send_frame`, `recv_frame`, and in Transport/Serve the receive loop
--               of a connection, which is also that of `run_tcp_server` in src/daemon.rs; in
--               Transport/Server the accept loop of `server`;
--               Transport/Forward is the loop of a connection task of src/daemon.rs, and
--               Transport/Relay the way of an image from one clipboard to the other, in
--               Transport/Injected that of an image of `tassh inject`, and Transport/Broadcast the
--               broadcast channel of src/peer.rs that lies between
--   Peer        src/peer.rs: the registry and its operations; `PeerInfo` of src/ipc.rs. Peer/Unordered
--               is the registry without the order of its map, as a quotient
--   Daemon      src/daemon.rs: Daemon/Sections holds the blocks that run under the registry's lock,
--               each a function on the state of one peer; Daemon composes them into the handlers
--               `handle_connect`, `handle_pid_exit`, `refresh_peer_liveness`,
--               `discover_existing_ssh_sessions` (the task of one host), `run_tcp_server` (an
--               accepted connection) and `start_peer_connection`. Daemon/Log and Daemon/Phases are the
--               abstract views: a log of the sessions that were opened and closed, and a machine of
--               the phases of the connection to one host
--   Instance    src/daemon.rs: the start of `run_daemon`, up to the bound socket, and in Instance/Life
--               its loop over connections and signals with the cleanup
--   Paths       the paths below $HOME: `socket_path` of src/daemon.rs, `display_file_path` of
--               src/display.rs, `binary_path` and `unit_dir` of src/setup.rs
--   Discovery   src/daemon.rs: `discover_existing_ssh_sessions` from the output of pgrep to the hosts
--               with their processes, and `discover_local_aliases`
--   Ipc         src/ipc.rs and the two ends of the Unix socket: `send_notify`, `send_inject` and the
--               request of `run_status` in src/main.rs, `handle_ipc_connection` in src/daemon.rs; in Ipc/Answer
--               the answer to a status request, with `write_response`
--   Status      src/main.rs: the report of `run_status`
--   Cli         src/cli.rs and `main` of src/main.rs: the commands, what they write, the exit codes
--   PidWatcher  src/pid_watcher.rs: when `watch_pid` resolves
--   Strings     the functions on `str` of the standard library of Rust that the sources call
--   Ssh         src/daemon.rs: `is_ssh_client_command`, `ssh_option_takes_value`,
--               `extract_ssh_destination_host`, `normalize_ssh_host`, `normalize_peer_hostname`
--   Inbound     src/daemon.rs: `resolve_inbound_peer_key` and `existing_peer_key_for_ip`; in Inbound/Accept
--               the accept loop of `run_tcp_server`, in Inbound/Resolve `host_resolves_to_ip` and
--               `reverse_dns_lookup`
--   Display     src/display.rs: `detect_and_init` and the restart loop of `monitor_xvfb`, in
--               Display/Restart with the displays that they leave behind and those that
--               `run_daemon` of src/daemon.rs passes on to the writers and the watcher
--   Locks       src/display.rs: `clean_stale_xvfb_locks`, `read_displayfd`, the published file, and
--               in Locks/Spawn `spawn_xvfb`
--   Shutdown    src/display.rs: `shutdown` beside `monitor_xvfb`, as a step relation on the mutex that
--               both take, with the deadline of `run_daemon`
--   Clipboard   src/clipboard.rs: the loops of `watch_clipboard_with_command` and of
--               `watch_clipboard_with_arboard`, and `ClipboardWriter`; in Clipboard/Tools the reads,
--               the start of the watchers and `check_clipboard_tools`; in Clipboard/Echo
--               two daemons that write to each other's clipboards, with polls and writes in any order
--   Setup       src/setup.rs: the hooks in the shell profiles (`ensure_shell_snippet`) and in the ssh
--               configuration (`setup_ssh_config`), with the question to the user; in Setup/Concurrent
--               runs that work on one profile at the same time; in Setup/Service the
--               whole of `run_setup_daemon`
-- A module named Examples runs the code on concrete inputs.
--
-- Concurrency. The tasks of the daemon share the registry behind one mutex that is held for one block
-- at a time. The state of the model is the registry and the list of tasks that wait for their next
-- block; an event is a message, a tick, a host found at startup, an accepted connection, or the next
-- block of any waiting task, with the outcome of what the task waited for (a probe, a connection
-- attempt). A history is a list of events. Every order is allowed, also such that the scheduler or the
-- order of statements in `refresh_peer_liveness` excludes: it awaits one idle host after the other,
-- and the model lets them, its listing and its visits run in any order. So a statement about all
-- histories holds of the program. A statement that some events lead somewhere is about a path of the
-- model, and Daemon/InOrder says which paths keep the order of the refresh. A task that does not wait
-- for what it awaits in the code (a
-- connection task that ends at once, a process that exits at once) is such a history. The number of a
-- close channel is its order of creation; a connection task holds the number of its own.
--
-- Numbers. `usize` is 64 bits and its additions wrap at 2^64, a PID is a `u32`, and subtraction on the
-- counters saturates as `saturating_sub` does. Hashes and encoded images are lists of numbers.
--
-- Fuel. Only the receive loop runs on fuel: each round that goes on takes at least a header off the
-- stream, so that one more than the bytes that will arrive is enough, which is proved. The restart loop
-- and the watch loops recurse on the list of what happens in each round. A number is printed with
-- twenty digits of fuel, enough for 64 bits.
--
-- Outside the sources. tokio's broadcast channel is the interface `Broadcast` of Transport/Broadcast:
-- what one receiver has not read, of which all but the newest 16 are dropped and counted when it falls
-- behind. tokio's reader is the interface `Reader` of Transport: bytes that will still
-- arrive, the error on which the stream ends, and what `read_exact` is documented to do. The JSON of
-- serde is the interface `Json` of Ipc, and for responses `ResponseJson` of Ipc/Answer: it has no line
-- feed in it and is read back. The outcome of a
-- write, of spawning a process and of a probe, and the environment variables are arguments. The hash
-- of an image (SHA-256) and the PNG encoder are parameters without hypotheses.
--
-- Not modelled: the parser of the command line (clap derives it from src/cli.rs), and of the modelled
-- files the parts that are calls of the system, such as the answers of DNS, which are
-- arguments. In the histories of Daemon an accepted connection comes with its key, which may be any
-- text.
pub mod Prelude
pub mod Protocol
pub mod Transport
pub mod Peer
pub mod Paths
pub mod PidWatcher
pub mod Daemon
pub mod Strings
pub mod Ssh
pub mod Display
pub mod Clipboard
pub mod Setup
pub mod Inbound
pub mod Instance
pub mod Discovery
pub mod Status
pub mod Cli
pub mod Client
pub mod Locks
pub mod Shutdown
pub mod Ipc
