-- ===== src/Client.antt =====
-- src/transport.rs: `client`, which sends the frames of a channel and reconnects with a growing delay.
-- A random `f64` is k / 2^53, so a delay is counted in units of 2^-55 seconds; the rounding of the
-- floating point product is left out.
pub mod Reconnect
pub mod Delays
mod Examples
use tassh.Protocol.{Frame, to_bytes}
use tassh.Transport.{WriteOutcome, send_frame}
use tassh.Prelude.{ℕ, List, if◌then◌else◌, ◌*◌, ◌∷◌, leb, ◌^◌, Bool, [], false, ok, ◌+◌, true, err}

-- One round of the outer loop: the connection was refused, or it took writes with these outcomes. The
-- number is the random one of the delay behind the round.
pub data Round : Type 0 where
  refused : ℕ → Round
  accepted : List WriteOutcome → ℕ → Round

-- How the inner loop ended.
pub data Sending : Type 0 where
  -- the outcomes that are given are used up, and the loop waits
  waiting : Sending
  -- a write failed: the connection is lost
  lost : Sending
  -- the channel is closed
  finished : Sending

-- The frames whose write was completed, those left in the channel, and the end.
unfoldable pub send_loop : List WriteOutcome → List Frame → List Frame × List Frame × Sending
unfolding send_frame
send_loop ws [] = ([], [], finished)
send_loop [] (f ∷ fs) = ([], f ∷ fs, waiting)
send_loop (w ∷ ws) (f ∷ fs) =
    let (sent, left, end) = send_loop ws fs in
    elim (send_frame (λ _. w) f) [ ok _ ↦ (f ∷ sent, left, end) | err e ↦ ([], fs, lost) ]

-- (backoff * 2.0).min(30.0)
unfoldable pub next_backoff : ℕ → ℕ
next_backoff backoff = if leb (2 * backoff) 30 then 2 * backoff else 30

-- backoff + random * backoff * 0.25
unfoldable pub delay : ℕ → ℕ → ℕ
delay backoff random = backoff * 2 ^ 55 + random * backoff

-- What the client did: the frames sent over each connection that was lost, the delays, the frames left
-- in the channel, and whether it returned.
pub record Trace : Type 0 where
  pub sent : List (List Frame)
  pub delays : List ℕ
  pub left : List Frame
  pub returned : Bool

abbrev after_loop : List Frame × List Frame × Sending → Trace → Trace
after_loop (sent, left, lost) more = record more { sent = sent ∷ more.sent }
after_loop (sent, left, finished) more = record {
  sent = sent ∷ [];
  delays = [];
  left = left;
  returned = true;
}
after_loop (sent, left, waiting) more = record {
  sent = sent ∷ [];
  delays = [];
  left = left;
  returned = false;
}

abbrev delayed : ℕ → Trace → Trace
delayed d more = record more { delays = d ∷ more.delays }

unfoldable pub client : ℕ → List Round → List Frame → Trace
unfolding send_loop next_backoff delay
client backoff [] fs = record { sent = []; delays = []; left = fs; returned = false }
client backoff (refused random ∷ rounds) fs =
    delayed (delay backoff random) (client (next_backoff backoff) rounds fs)
client backoff (accepted ws random ∷ rounds) fs =
    let loop = send_loop ws fs in
    after_loop loop (delayed (delay 1 random) (client (next_backoff 1) rounds loop.1))
