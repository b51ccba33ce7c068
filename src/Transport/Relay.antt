-- ===== src/Transport/Relay.antt =====
-- The way of an image: the watcher of src/clipboard.rs, the broadcast and the connection task of
-- src/daemon.rs, and the daemon at the other end, which writes the payloads to its clipboard.
use tassh.Protocol.{Frame, u32_max, to_bytes}
use tassh.Clipboard.{Poll, watch_from}
use tassh.Clipboard.Watch.{IsTaken, Forwarded, Changes, watch_from-Forwarded, watch_from-Changes}
use tassh.Transport.{
  Reader, unexpected_eof, connection_closed, WriteOutcome, written, elapsed, failed, send_frame,
}
use tassh.Transport.Serve.{payloads, serve_connection}
use tassh.Transport.Forward.{
  Write, Signal, received, lagged, broadcast_closed, closing, read_eof, read_error, read_data,
  forward, delivered, IsCut, serve_connection-forward,
}
use tassh.Prelude.{
  ℕ, List, Text, Option, [], ◌∷◌, ok, some, ◌≡◌, ◌≤◌, ◌<◌, length, All, All-mono, map_option, arith,
  refl, ap, ◌∙◌, subst,
}

-- The frames that a connection task receives from the broadcast channel.
unfoldable pub frames : List Signal → List Frame
frames [] = []
frames (received f w ∷ rest) = f ∷ frames rest
frames (_ ∷ rest) = frames rest

-- Nothing ends the task: a frame has a length that fits its header and is written, the other end sends
-- at most data that is ignored, and the task may be told that it missed frames.
abbrev pub IsWhole : Signal → Type 0
IsWhole (received f w) = (length f.payload ≤ u32_max) × (w.outcome ≡ written)
IsWhole read_data = Unit
IsWhole (lagged n) = Unit
IsWhole _ = ⊥

written-delivered :
    (f : Frame) (w : Write) (rest : List Signal)
    → length f.payload ≤ u32_max
    → w.outcome ≡ written
    → delivered (received f w ∷ rest) ≡ f ∷ delivered rest
unfolding delivered send_frame to_bytes
written-delivered f w rest h e = ground arith

pub delivered-frames :
    (signals : List Signal) → All IsWhole signals → delivered signals ≡ frames signals
unfolding frames delivered
delivered-frames [] h = refl
delivered-frames (received f w ∷ rest) ((fits, e), h) =
    written-delivered f w rest fits e ∙ ap (λ (fs : List Frame). f ∷ fs) (delivered-frames rest h)
delivered-frames (read_data ∷ rest) (_, h) = delivered-frames rest h
delivered-frames (lagged n ∷ rest) (_, h) = delivered-frames rest h
delivered-frames (broadcast_closed ∷ rest) (h, _) = absurd h
delivered-frames (closing ∷ rest) (h, _) = absurd h
delivered-frames (read_eof ∷ rest) (h, _) = absurd h
delivered-frames (read_error ∷ rest) (h, _) = absurd h

written-IsCut :
    (o : WriteOutcome) (f : Frame) (n : ℕ)
    → o ≡ written
    → IsCut (received f (record { outcome = o; sent = n }))
written-IsCut written f n e = tt
written-IsCut elapsed f n e = absurd (cc e)
written-IsCut (failed x) f n e = absurd (cc e)

pub IsWhole-IsCut : (s : Signal) → IsWhole s → IsCut s
IsWhole-IsCut (received f w) (_, e) = written-IsCut w.outcome f w.sent e
IsWhole-IsCut read_data h = tt
IsWhole-IsCut (lagged n) h = tt
IsWhole-IsCut broadcast_closed h = tt
IsWhole-IsCut closing h = tt
IsWhole-IsCut read_eof h = tt
IsWhole-IsCut read_error h = tt

module _ (R : Reader) (content_hash : List ℕ → Text) where
  open R use {Half, pending, ends}

  -- While the channel of the watcher takes every frame, the connection task receives each of them and nothing
  -- ends it, each image fits a frame and each write is completed, the images that the watcher of one daemon
  -- sends are exactly those that the daemon at the other end writes to its clipboard, in order. Each
  -- image that was polled has the hash of one of them or of the image that was there at the start, which is not
  -- sent; and each that is sent has another hash than the one before it, the first one another than
  -- that of the start.
  pub images_arrive :
      (startup : Option (List ℕ)) (polls : List Poll) (sent : List Frame) (signals : List Signal)
      (fuel : ℕ) (r : Half)
      → All (IsTaken content_hash) polls
      → watch_from content_hash (ok startup) polls ≡ ok sent
      → frames signals ≡ sent
      → All IsWhole signals
      → pending r ≡ forward signals
      → ends r ≡ unexpected_eof
      → length sent < fuel
      → (serve_connection R fuel r ≡ (payloads sent, some connection_closed))
        × All (Forwarded content_hash (map_option content_hash startup) sent) polls
        × Changes content_hash (map_option content_hash startup) sent
  images_arrive startup polls sent signals fuel r taken e relayed whole p q h =
      let same = delivered-frames signals whole ∙ relayed in
      (
        subst
            (λ fs.
              length fs < fuel → serve_connection R fuel r ≡ (payloads fs, some connection_closed))
            same
            (serve_connection-forward R signals fuel r (All-mono _ _ IsWhole-IsCut signals whole) p
              q)
            h,
        watch_from-Forwarded content_hash startup polls sent taken e,
        watch_from-Changes content_hash startup polls sent e,
      )
