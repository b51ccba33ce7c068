-- ===== src/Client/Reconnect.antt =====
-- Which frames `client` of src/transport.rs sends, over all its connections.
use tassh.Protocol.{Frame}
use tassh.Transport.{WriteOutcome, send_frame, TransportError}
use tassh.Client.{
  Round, refused, accepted, Sending, waiting, lost, finished, send_loop, Trace, after_loop, delayed,
  delay, next_backoff, client,
}
use tassh.Prelude.{ℕ, List, [], ◌≡◌, ◌∷◌, ◌++◌, ap, Result, ok, err, refl}

-- The frames sent over the connections against those taken from the channel: each connection that is
-- lost loses one frame, the last need not be lost.
pub data Sends : List (List Frame) → List Frame → List Frame → Type 0 where
  none_yet : {fs : List Frame} → Sends [] fs fs
  last : {fs sent left : List Frame} → fs ≡ sent ++ left → Sends (sent ∷ []) fs left
  broken :
      {fs sent rest left : List Frame} {more : List (List Frame)} (dropped : Frame)
      → fs ≡ sent ++ dropped ∷ rest
      → Sends more rest left
      → Sends (sent ∷ more) fs left

-- What one connection did with the frames.
abbrev Took : List Frame → List Frame × List Frame × Sending → Type 0
Took fs (sent, left, lost) = (dropped : Frame) × (fs ≡ sent ++ dropped ∷ left)
Took fs (sent, left, _) = fs ≡ sent ++ left

Took-cons :
    (f : Frame) (fs sent left : List Frame) (end : Sending)
    → Took fs (sent, left, end)
    → Took (f ∷ fs) (f ∷ sent, left, end)
Took-cons f fs sent left lost (dropped, e) = (dropped, ap (λ xs. f ∷ xs) e)
Took-cons f fs sent left waiting e = ap (λ xs. f ∷ xs) e
Took-cons f fs sent left finished e = ap (λ xs. f ∷ xs) e

send-Took :
    (f : Frame) (fs : List Frame) (loop : List Frame × List Frame × Sending)
    (x : Result TransportError (Unit {0}))
    → Took fs loop
    → Took (f ∷ fs) (elim x [ ok _ ↦ (f ∷ loop.0, loop.1, loop.2) | err e ↦ ([], fs, lost) ])
send-Took f fs (sent, left, end) (ok _) t = Took-cons f fs sent left end t
send-Took f fs loop (err e) t = (f, refl)

send_loop-Took : (ws : List WriteOutcome) (fs : List Frame) → Took fs (send_loop ws fs)
unfolding send_loop
send_loop-Took ws [] = refl
send_loop-Took [] (f ∷ fs) = refl
send_loop-Took (w ∷ ws) (f ∷ fs) =
    send-Took f fs (send_loop ws fs) (send_frame (λ _. w) f) (send_loop-Took ws fs)

after_loop-Sends :
    (fs : List Frame) (loop : List Frame × List Frame × Sending) (more : Trace)
    → Took fs loop
    → Sends more.sent loop.1 more.left
    → Sends (after_loop loop more).sent fs (after_loop loop more).left
after_loop-Sends fs (sent, left, lost) more (dropped, e) s = broken dropped e s
after_loop-Sends fs (sent, left, waiting) more e s = last e
after_loop-Sends fs (sent, left, finished) more e s = last e

-- However connections come and go, the client sends the frames of the channel in order and none twice,
-- and of each connection that is lost exactly one frame is dropped: the one whose write failed.
pub client-Sends :
    (backoff : ℕ) (rounds : List Round) (fs : List Frame)
    → Sends (client backoff rounds fs).sent fs (client backoff rounds fs).left
unfolding client
client-Sends backoff [] fs = none_yet
client-Sends backoff (refused random ∷ rounds) fs = client-Sends (next_backoff backoff) rounds fs
client-Sends backoff (accepted ws random ∷ rounds) fs =
    let loop = send_loop ws fs in
    after_loop-Sends fs loop (delayed (delay 1 random) (client (next_backoff 1) rounds loop.1))
      (send_loop-Took ws fs) (client-Sends (next_backoff 1) rounds loop.1)
