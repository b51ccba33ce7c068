-- ===== src/Transport/Injected.antt =====
-- From `tassh inject` of src/main.rs over the daemon of src/daemon.rs to the clipboard of another host.
use tassh.Protocol.{Frame, new_png}
use tassh.Ipc.{Json, Reaction, broadcast, handle_ipc_connection, send_inject}
use tassh.Ipc.Delivery.{commands_delivered}
use tassh.Transport.{Reader, unexpected_eof, connection_closed}
use tassh.Transport.Serve.{payloads, serve_connection}
use tassh.Transport.Forward.{Signal, Write, received, forward, serve_connection-forward}
use tassh.Transport.Relay.{frames, IsWhole, IsWhole-IsCut, delivered-frames}
use tassh.Prelude.{
  ℕ, List, All, All-mono, [], ◌∷◌, ◌++◌, some, ◌≡◌, ◌<◌, length, arith, refl, ap, ◌∙◌, sym, subst,
}

frames-received :
    (before after : List Signal) (f : Frame) (w : Write)
    → payloads (frames (before ++ received f w ∷ after))
      ≡ payloads (frames before) ++ f.payload ∷ payloads (frames after)
unfolding frames payloads
frames-received [] after f w = refl
frames-received (received g v ∷ before) after f w =
    ap (λ (ps : List (List ℕ)). g.payload ∷ ps) (frames-received before after f w)
frames-received (_ ∷ before) after f w = frames-received before after f w

abbrev broadcast_payload : Reaction → List ℕ
broadcast_payload (broadcast f) = f.payload
broadcast_payload _ = []

module _ (J : Json) (R : Reader) where
  open R use {Half, pending, ends}

  -- An injected image fits a frame, and a connection task receives what the daemon broadcasts for the
  -- bytes that `tassh inject` writes. While every write of that task is completed and nothing ends it,
  -- the daemon at the other end writes the image to its clipboard, behind the
  -- images of the frames before it and followed by those behind it.
  pub injected_arrives :
      (png_bytes : List ℕ) (f : Frame) (w : Write) (before after : List Signal) (fuel : ℕ)
      (r : Half)
      → All (λ b. b < 256) png_bytes
      → handle_ipc_connection J (send_inject J png_bytes) ≡ broadcast f
      → All IsWhole (before ++ received f w ∷ after)
      → pending r ≡ forward (before ++ received f w ∷ after)
      → ends r ≡ unexpected_eof
      → length (frames (before ++ received f w ∷ after)) < fuel
      → serve_connection R fuel r
        ≡ (payloads (frames before) ++ png_bytes ∷ payloads (frames after), some connection_closed)
  unfolding new_png
  injected_arrives png_bytes f w before after fuel r small e whole p q h =
      let (_, injected, _) =
        commands_delivered J [] 0 0 png_bytes (omega arith) (omega arith) small in
      let same : f.payload ≡ png_bytes = ap broadcast_payload (sym e ∙ injected) in
      let signals = before ++ received f w ∷ after in
      let all_sent = delivered-frames signals whole in
      let served =
        serve_connection-forward R signals fuel r (All-mono _ _ IsWhole-IsCut signals whole) p q
          (subst (λ (fs : List Frame). length fs < fuel) (sym all_sent) h) in
      served
      ∙ ap (λ (ps : List (List ℕ)). (ps, some connection_closed))
          (ap payloads all_sent
            ∙ frames-received before after f w
            ∙ ap (λ (png : List ℕ). payloads (frames before) ++ png ∷ payloads (frames after)) same)
