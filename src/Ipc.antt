-- ===== src/Ipc.antt =====
-- src/ipc.rs, and the two ends of the Unix socket: `send_notify`, `send_inject` and the request of
-- `run_status` in src/main.rs, and `handle_ipc_connection` in src/daemon.rs.
-- serde belongs to a library: its JSON is the interface `Json`, and what it promises is that a message
-- is written without a line feed and read back, also with the line feed behind it.
pub mod Delivery
pub mod Answer
pub mod Shown
pub mod Notify
pub mod Tagged
pub mod Cells
mod Examples
use tassh.Protocol.{Frame, new_png}
use tassh.Daemon.{Event, connect, disconnect, refresh}
use tassh.Strings.{is_empty}
use tassh.Prelude.{
  ℕ, Text, true, Option, List, All, if◌then◌else◌, ◌++◌, some, ◌∷◌, ◌==◌, [], none, ◌≡◌, false, ◌<◌,
  ◌^◌,
}

pub data IpcMessage : Type 0 where
  connect_to : Text → ℕ → ℕ → IpcMessage
  disconnect_from : Text → ℕ → IpcMessage
  status : IpcMessage
  inject_frame : List ℕ → IpcMessage

-- The fields are of their types: a port is a `u16`, a PID a `u32`, a byte a `u8`.
abbrev pub IsMessage : IpcMessage → Type 0
IsMessage (connect_to hostname port ssh_pid) = (port < 2 ^ 16) × (ssh_pid < 2 ^ 32)
IsMessage (disconnect_from hostname ssh_pid) = ssh_pid < 2 ^ 32
IsMessage (inject_frame png_bytes) = All (λ b. b < 256) png_bytes
IsMessage status = Unit

pub record Json : Type 0 where
  pub to_vec : IpcMessage → Text
  pub from_str : Text → Option IpcMessage
  pub one_line : (m : IpcMessage) → All (λ c. (c == 10) ≡ false) (to_vec m)
  pub reads_back : (m : IpcMessage) → IsMessage m → from_str (to_vec m ++ 10 ∷ []) ≡ some m

-- read_line: the text up to the first line feed, with it.
unfoldable pub first_line : Text → Text
first_line [] = []
first_line (c ∷ s) = let rest = first_line s in if c == 10 then c ∷ [] else c ∷ rest

-- What the daemon does with a message: an event of its registry, a frame for the broadcast channel, a
-- status response, or nothing.
pub data Reaction : Type 0 where
  ignored : Reaction
  event : Event → Reaction
  -- the refresh, and then the list of the peers as the answer
  answered : Event → Reaction
  broadcast : Frame → Reaction

abbrev pub react : IpcMessage → Reaction
react (connect_to hostname port ssh_pid) = event (connect hostname ssh_pid)
react (disconnect_from hostname ssh_pid) = event (disconnect hostname ssh_pid)
react status = answered (refresh true)
react (inject_frame png_bytes) = broadcast (new_png png_bytes)

abbrev react_if : Option IpcMessage → Reaction
react_if none = ignored
react_if (some m) = react m

module _ (J : Json) where
  open J use {to_vec, from_str}

  -- `stream` is what the client writes before it closes.
  unfoldable pub handle_ipc_connection : Text → Reaction
  unfolding first_line
  handle_ipc_connection stream =
      if is_empty (first_line stream) then ignored else react_if (from_str (first_line stream))

  -- What `tassh notify`, `tassh inject` and `tassh status` write.
  unfoldable pub send_notify : Text → ℕ → ℕ → Text
  send_notify host port ssh_pid = to_vec (connect_to host port ssh_pid) ++ 10 ∷ []

  unfoldable pub send_inject : List ℕ → Text
  send_inject png_bytes = to_vec (inject_frame png_bytes) ++ 10 ∷ []

  unfoldable pub status_request : Text
  status_request = to_vec status ++ 10 ∷ []
