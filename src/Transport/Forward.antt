-- ===== src/Transport/Forward.antt =====
-- The loop of a connection task of `start_peer_connection` in src/daemon.rs, from the clipboard
-- broadcast to the socket, and the peer that reads the other end.
use tassh.Protocol.{Frame, new_png, to_bytes, FrameError, header_len}
use tassh.Protocol.Framing.{length-to_bytes}
use tassh.Transport.{
  Reader, unexpected_eof, TransportError, connection_closed, WriteOutcome, written, elapsed, failed,
  send_frame, write_result, frame,
}
use tassh.Transport.Serve.{encode_all, payloads, serve_connection, serve_connection-encode_all}
use tassh.Prelude.{
  ℕ, Result, List, [], ◌<◌, ◌≡◌, All, err, ok, take, ◌++◌, ◌+◌, length, ◌∷◌, ap, some, refl, ◌∙◌,
  sym, append_assoc, arith, map_err, ◌>>=◌,
}

-- A write of a frame: how it ended, and how many bytes were on the wire by then if it was not
-- completed.
pub record Write : Type 0 where
  pub outcome : WriteOutcome
  pub sent : ℕ

-- What `tokio::select!` reports in one round.
pub data Signal : Type 0 where
  -- a frame of the broadcast channel, and its write
  received : Frame → Write → Signal
  lagged : ℕ → Signal
  broadcast_closed : Signal
  -- the close channel
  closing : Signal
  -- a read of the socket: the end, an error, or data, which is ignored
  read_eof read_error read_data : Signal

abbrev on_wire : WriteOutcome → ℕ → Result FrameError (List ℕ) → List ℕ
on_wire outcome sent (err e) = []
on_wire written sent (ok bytes) = bytes
on_wire _ sent (ok bytes) = take sent bytes

-- The bytes that the loop puts on the wire.
unfoldable pub forward : List Signal → List ℕ
unfolding send_frame
forward [] = []
forward (received f w ∷ rest) =
    let more = forward rest in
    let wire = on_wire w.outcome w.sent (to_bytes f) in
    elim (send_frame (λ _. w.outcome) f) [ ok _ ↦ wire ++ more | err e ↦ wire ]
forward (lagged n ∷ rest) = forward rest
forward (read_data ∷ rest) = forward rest
forward (broadcast_closed ∷ rest) = []
forward (closing ∷ rest) = []
forward (read_eof ∷ rest) = []
forward (read_error ∷ rest) = []

-- The frames whose write was completed, until the loop ends.
unfoldable pub delivered : List Signal → List Frame
delivered [] = []
delivered (received f w ∷ rest) =
    let more = delivered rest in
    elim (send_frame (λ _. w.outcome) f) [ ok _ ↦ f ∷ more | err e ↦ [] ]
delivered (lagged n ∷ rest) = delivered rest
delivered (read_data ∷ rest) = delivered rest
delivered _ = []

-- A write that was not completed did not put the whole frame on the wire.
abbrev CutBelow : WriteOutcome → ℕ → ℕ → Type 0
CutBelow written sent len = Unit
CutBelow _ sent len = sent < len

abbrev pub IsCut : Signal → Type 0
IsCut (received f w) = CutBelow w.outcome w.sent (header_len + length f.payload)
IsCut _ = Unit

-- Whole frames, and a proper prefix of one more.
abbrev pub Framed : List Frame → List ℕ → Type 0
Framed fs wire =
    (bytes : List ℕ) × (g : Frame) × (next : List ℕ) × (n : ℕ) × (encode_all fs ≡ ok bytes)
    × (to_bytes g ≡ ok next)
    × (n < length next)
    × (wire ≡ bytes ++ take n next)

nothing-Framed : Framed [] []
unfolding encode_all to_bytes new_png
nothing-Framed = ([], new_png [], _, 0, refl, refl, omega arith, refl)

prefix-Framed :
    (f : Frame) (bytes : List ℕ) (n : ℕ)
    → to_bytes f ≡ ok bytes
    → n < length bytes
    → Framed [] (take n bytes)
unfolding encode_all
prefix-Framed f bytes n e h = ([], f, bytes, n, refl, e, h, refl)

cons-Framed :
    (f : Frame) (fs : List Frame) (b wire : List ℕ)
    → to_bytes f ≡ ok b
    → Framed fs wire
    → Framed (f ∷ fs) (b ++ wire)
unfolding encode_all
cons-Framed f fs b wire e (bytes, g, next, n, es, eg, h, split) = (
  b ++ bytes,
  g,
  next,
  n,
  rw (e, es),
  eg,
  h,
  ap (λ (x : List ℕ). b ++ x) split ∙ sym (append_assoc b bytes (take n next)),
)

-- One send: the frame is whole on the wire, cut, or not there at all.
send-Framed :
    (f : Frame) (fs : List Frame) (more : List ℕ) (o : WriteOutcome) (n : ℕ)
    (x : Result FrameError (List ℕ))
    → to_bytes f ≡ x
    → CutBelow o n (header_len + length f.payload)
    → Framed fs more
    → let sent : Result TransportError (Unit {0}) = map_err frame x >>= λ bytes. write_result o in
      Framed
        (elim sent [ ok _ ↦ f ∷ fs | err e ↦ [] ])
        (elim sent [ ok _ ↦ on_wire o n x ++ more | err e ↦ on_wire o n x ])
unfolding write_result
send-Framed f fs more o n (err e) q c h = nothing-Framed
send-Framed f fs more written n (ok b) q c h = cons-Framed f fs b more q h
send-Framed f fs more elapsed n (ok b) q c h = prefix-Framed f b n q (rw (length-to_bytes f b q) c)
send-Framed f fs more (failed e) n (ok b) q c h =
    prefix-Framed f b n q (rw (length-to_bytes f b q) c)

pub forward-Framed :
    (signals : List Signal) → All IsCut signals → Framed (delivered signals) (forward signals)
unfolding forward delivered
forward-Framed [] h = nothing-Framed
forward-Framed (received f w ∷ rest) (hw, h) =
    send-Framed f (delivered rest) (forward rest) w.outcome w.sent (to_bytes f) refl hw
      (forward-Framed rest h)
forward-Framed (lagged n ∷ rest) (_, h) = forward-Framed rest h
forward-Framed (read_data ∷ rest) (_, h) = forward-Framed rest h
forward-Framed (broadcast_closed ∷ rest) h = nothing-Framed
forward-Framed (closing ∷ rest) h = nothing-Framed
forward-Framed (read_eof ∷ rest) h = nothing-Framed
forward-Framed (read_error ∷ rest) h = nothing-Framed

module _ (R : Reader) where
  open R use {Half, pending, ends}

  -- Whatever happens to a connection, its peer writes to the clipboard exactly the payloads of the
  -- frames whose write was completed, in order, and then sees the connection closed. A write that was
  -- not completed leaves no trace, as long as it did not put the whole frame on the wire.
  pub serve_connection-forward :
      (signals : List Signal) (fuel : ℕ) (r : Half)
      → All IsCut signals
      → pending r ≡ forward signals
      → ends r ≡ unexpected_eof
      → length (delivered signals) < fuel
      → serve_connection R fuel r ≡ (payloads (delivered signals), some connection_closed)
  serve_connection-forward signals fuel r cuts p e h =
      let (bytes, g, next, n, es, eg, below, split) = forward-Framed signals cuts in
      serve_connection-encode_all R (delivered signals) bytes g next n fuel r es eg below
        (p ∙ split) e h
