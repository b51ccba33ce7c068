-- ===== src/Transport/Examples.antt =====
-- The theorems about src/transport.rs at a stream that is a list of bytes.
mod Channel
use tassh.Prelude.{
  ltb, drop, length, ◌-◌, if◌then◌else◌, ◌≤◌, ◌<◌, codes, none, text_eq, true, All, ℕ, refl, take,
  List, ◌∷◌, ◌≡◌, ◌++◌, Result, [], ok, err, arith, some, leb,
}
use tassh.Ipc.{broadcast, handle_ipc_connection, send_inject}
use tassh.Ipc.Tagged.{tagged}
use tassh.Ipc.Delivery.{commands_delivered}
use tassh.Transport.Injected.{injected_arrives}
use tassh.Protocol.{Frame, to_bytes, new_png, from_be_bytes}
use tassh.Transport.{
  TransportError, Reader, IoError, unexpected_eof, connection_closed, send_frame, io, other,
  recv_frame, payload_len, read_error, written, elapsed,
}
use tassh.Transport.Serve.{serve_connection, serve_connection_ends, encode_all, payloads}
use tassh.Clipboard.{Poll, image, no_image, watch_from}
use tassh.Clipboard.Watch.{Forwarded, Changes}
use tassh.Transport.Relay.{frames, images_arrive}
use tassh.Transport.Forward.{Write, Signal, received, read_data, delivered, forward}
use tassh.Transport.Server.{server, accepted, resolve_address}
use tassh.Transport.Serial.{Sender, arrivals, completed, server-senders}
use tassh.Transport.Branches.{recv_frame_lem}

-- A stream that ends cleanly behind its bytes.
read_list : ℕ → List ℕ → Result IoError (List ℕ) × List ℕ
read_list n bytes =
    if leb n (length bytes) then (ok (take n bytes), drop n bytes) else (err unexpected_eof, bytes)

read_list_enough :
    (n : ℕ) (r : List ℕ)
    → n ≤ length r
    → ((read_list n r).0 ≡ ok (take n r))
      × ((read_list n r).1 ≡ drop n r)
      × (◌≡◌ {A = IoError} unexpected_eof unexpected_eof)
unfolding read_list
read_list_enough n r h = ground arith

read_list_short : (n : ℕ) (r : List ℕ) → length r < n → (read_list n r).0 ≡ err unexpected_eof
unfolding read_list
read_list_short n r h = ground arith

abbrev list_reader : Reader
list_reader = record {
  Half = List ℕ;
  read_exact = read_list;
  pending = λ r. r;
  ends = λ r. unexpected_eof;
  read_enough = read_list_enough;
  read_short = read_list_short;
}

abbrev small : Frame
small = record { frame_type = 1; payload = 7 ∷ [] }

abbrev small_bytes : List ℕ
small_bytes = 0xc5 ∷ 0x53 ∷ 1 ∷ 1 ∷ 0 ∷ 0 ∷ 0 ∷ 1 ∷ 7 ∷ []

to_bytes_small : to_bytes small ≡ ok small_bytes
unfolding to_bytes
to_bytes_small = refl

encode_all_small : encode_all (small ∷ small ∷ []) ≡ ok (small_bytes ++ small_bytes)
unfolding encode_all to_bytes
encode_all_small = refl

serve_connection_ends_example :
    (e : TransportError) × ((serve_connection list_reader 4 (1 ∷ 2 ∷ 3 ∷ [])).1 ≡ some e)
serve_connection_ends_example = serve_connection_ends list_reader 4 (1 ∷ 2 ∷ 3 ∷ []) (omega arith)

-- A frame that is written, a message that is ignored, a frame that is cut by the deadline.
abbrev two_sends : List Signal
two_sends =
    received small (record { outcome = written; sent = 0 })
    ∷ read_data
    ∷ received small (record { outcome = elapsed; sent = 4 })
    ∷ received small (record { outcome = written; sent = 0 })
    ∷ []

two_sends-delivered : delivered two_sends ≡ small ∷ []
unfolding delivered to_bytes send_frame
two_sends-delivered = refl

-- Two images are polled beside the one that was there, and both are relayed.
abbrev polls : List Poll
polls = image (1 ∷ []) true ∷ image (7 ∷ []) true ∷ no_image ∷ image (8 ∷ []) true ∷ []

abbrev sent_images : List Frame
sent_images = small ∷ record small { payload = 8 ∷ [] } ∷ []

abbrev whole : Write
whole = record { outcome = written; sent = 0 }

abbrev relayed : List Signal
relayed = received small whole ∷ read_data ∷ received (record small { payload = 8 ∷ [] }) whole ∷ []

watched : watch_from (λ b. b) (ok (some (1 ∷ []))) polls ≡ ok sent_images
unfolding watch_from text_eq new_png
watched = refl

relayed-frames : frames relayed ≡ sent_images
unfolding frames
relayed-frames = refl

images_arrive_example :
    (serve_connection list_reader 3 (forward relayed)
      ≡ (payloads sent_images, some connection_closed))
    × All (Forwarded (λ b. b) (some (1 ∷ [])) sent_images) polls
    × Changes (λ b. b) (some (1 ∷ [])) sent_images
images_arrive_example =
    images_arrive list_reader (λ b. b) (some (1 ∷ [])) polls sent_images relayed 3 (forward relayed)
      (refl, (refl, (tt, (refl, tt)))) watched relayed-frames
      ((omega arith, refl), (tt, ((omega arith, refl), tt))) refl refl (omega arith)

abbrev sender : Sender list_reader
sender = record { signals = two_sends; half = forward two_sends }

-- A server on the address that tailscale prints, with one connection.
server-senders_example :
    (server list_reader
        (codes "auto")
        9877
        (ok (codes "100.64.0.1\n"))
        (λ a. none)
        (arrivals list_reader (sender ∷ []))
      ≡ (completed list_reader (sender ∷ []), none))
    × (server list_reader
          (codes "auto")
          9877
          (ok (codes "100.64.0.1\n"))
          (λ a. none)
          (arrivals list_reader (sender ∷ []) ++ accepted (some (other 1)) [] ∷ [])
        ≡ (completed list_reader (sender ∷ []), some (io (other 1))))
unfolding resolve_address text_eq
server-senders_example =
    server-senders list_reader (codes "auto") 9877 (ok (codes "100.64.0.1\n")) (λ a. none)
      (codes "100.64.0.1") (sender ∷ []) (other 1) [] [] refl refl
      (((tt, (tt, (omega arith, (tt, tt)))), refl, refl), tt)

-- A header of another protocol that calls for nine bytes, and two of them.
abbrev foreign_header : List ℕ
foreign_header = 1 ∷ 2 ∷ 3 ∷ 4 ∷ 0 ∷ 0 ∷ 0 ∷ 9 ∷ 5 ∷ 6 ∷ []

recv_frame_example : (recv_frame list_reader foreign_header).0 ≡ err connection_closed
unfolding payload_len from_be_bytes read_error
recv_frame_example = recv_frame_lem list_reader foreign_header

injected_broadcast :
    handle_ipc_connection tagged (send_inject tagged (7 ∷ [])) ≡ broadcast (new_png (7 ∷ []))
injected_broadcast =
    (commands_delivered tagged [] 0 0 (7 ∷ []) (omega arith) (omega arith) (omega arith, tt)).1

-- The image 7 is injected between two others.
abbrev eight : Signal
eight = received (new_png (8 ∷ [])) whole

abbrev seven : Signal
seven = received (new_png (7 ∷ [])) whole

injected_arrives_example :
    serve_connection list_reader 4 (forward ((eight ∷ read_data ∷ []) ++ seven ∷ (eight ∷ []))) ≡ (
      payloads (frames (eight ∷ read_data ∷ [])) ++ (7 ∷ []) ∷ payloads (frames (eight ∷ [])),
      some connection_closed,
    )
unfolding frames new_png
injected_arrives_example =
    injected_arrives tagged list_reader (7 ∷ []) (new_png (7 ∷ [])) whole (eight ∷ read_data ∷ [])
      (eight ∷ []) 4 (forward ((eight ∷ read_data ∷ []) ++ seven ∷ (eight ∷ []))) (omega arith, tt)
      injected_broadcast
      ((omega arith, refl), (tt, ((omega arith, refl), ((omega arith, refl), tt)))) refl refl
      (omega arith)
