-- ===== src/Ipc/Delivery.antt =====
-- What the commands of src/main.rs bring about in the daemon of src/daemon.rs.
use tassh.Protocol.{new_png}
use tassh.Daemon.{connect, refresh}
use tassh.Strings.{is_empty}
use tassh.Ipc.{
  IsMessage, IpcMessage, connect_to, inject_frame, status, Json, first_line, event, answered,
  broadcast, react, handle_ipc_connection, send_notify, send_inject, status_request,
}
use tassh.Prelude.{ℕ, Text, ◌++◌, All, ◌∷◌, List, ◌==◌, [], ◌≡◌, false, arith, true, refl, ◌<◌, ◌^◌}

pub first_line_whole :
    (s : Text) → All (λ c. (c == 10) ≡ false) s → first_line (s ++ 10 ∷ []) ≡ s ++ 10 ∷ []
unfolding first_line
first_line_whole [] h = refl
first_line_whole (c ∷ s) (hc, h) = ground (arith, first_line_whole s h)

line_not_empty : (s : Text) → is_empty (s ++ 10 ∷ []) ≡ false
line_not_empty [] = refl
line_not_empty (c ∷ s) = refl

module _ (J : Json) where
  open J use {to_vec, from_str, one_line, reads_back}

  handle_message :
      (m : IpcMessage) → IsMessage m → handle_ipc_connection J (to_vec m ++ 10 ∷ []) ≡ react m
  unfolding handle_ipc_connection
  handle_message m h =
      ground
        (arith, first_line_whole (to_vec m) (one_line m), line_not_empty (to_vec m), reads_back m h)

  -- Each command reaches the daemon as what it stands for: a notification as the start of a session of
  -- that host and process, an injected image as a frame for all peers, and a status request as a
  -- refresh that also probes the connected peers, with an answer behind it.
  pub commands_delivered :
      (host : Text) (port ssh_pid : ℕ) (png_bytes : List ℕ)
      → port < 2 ^ 16
      → ssh_pid < 2 ^ 32
      → All (λ b. b < 256) png_bytes
      → (handle_ipc_connection J (send_notify J host port ssh_pid) ≡ event (connect host ssh_pid))
        × (handle_ipc_connection J (send_inject J png_bytes) ≡ broadcast (new_png png_bytes))
        × (handle_ipc_connection J (status_request J) ≡ answered (refresh true))
  unfolding send_notify send_inject status_request
  commands_delivered host port ssh_pid png_bytes hp hs hb = (
    handle_message (connect_to host port ssh_pid) (hp, hs),
    handle_message (inject_frame png_bytes) hb,
    handle_message status tt,
  )
