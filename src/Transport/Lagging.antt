-- ===== src/Transport/Lagging.antt =====
-- From the broadcast channel of src/peer.rs over a connection task of src/daemon.rs, which may fall
-- behind, to the daemon at the other end.
use tassh.Protocol.{Frame, u32_max}
use tassh.Transport.{Reader, unexpected_eof, connection_closed, written}
use tassh.Transport.Serve.{payloads, serve_connection}
use tassh.Transport.Forward.{Write, Signal, forward, serve_connection-forward}
use tassh.Transport.Relay.{frames, IsWhole, IsWhole-IsCut, delivered-frames}
use tassh.Transport.Broadcast.{
  capacity, Broadcast, ChannelEvent, broadcasts, receives, report, broadcasted, relay,
}
use tassh.Transport.Newest.{Thinned, lost, relay-Thinned}
use tassh.Prelude.{
  ℕ, List, All, All-append, All-mono, some, [], ◌∷◌, ◌++◌, ◌≡◌, ◌≤◌, ◌<◌, ◌-◌, length, drop, arith,
  refl, ap, ◌∙◌, append-nil, subst, Bool-cases, ltb, inl, inr, zero, suc,
}

-- The frames fit their header.
abbrev Fit : List Frame → Type 0
Fit = All (λ f. length f.payload ≤ u32_max)

-- The frame fits its header, and the write is completed.
abbrev pub IsFull : ChannelEvent → Type 0
IsFull (broadcasts f) = length f.payload ≤ u32_max
IsFull (receives w) = w.outcome ≡ written

drop-Fit : (n : ℕ) (fs : List Frame) → Fit fs → Fit (drop n fs)
drop-Fit zero fs h = h
drop-Fit (suc n) [] h = tt
drop-Fit (suc n) (f ∷ fs) (_, h) = drop-Fit n fs h

module _ (B : Broadcast) where
  open B use {Receiver, unread, send, recv, unread-send, recv_empty, recv_next, recv_behind}

  -- One receive of frames that fit.
  receive-Fit :
      (r : Receiver) (w : Write) (rest : List Signal)
      → Fit (unread r)
      → w.outcome ≡ written
      → (Fit (unread (recv r).1) → All IsWhole rest)
      → All IsWhole (report (recv r).0 w rest)
  receive-Fit r w rest fit e more = go (unread r) refl
    where
      go : (fs : List Frame) → unread r ≡ fs → All IsWhole (report (recv r).0 w rest)
      go [] p = let (what, left) = recv_empty r p in rw what (more (rw left tt))
      go (f ∷ fs) p = elim (Bool-cases (ltb capacity (length (unread r)))) [
        | inl h ↦
            let (what, left) = recv_behind r (ground (arith, h)) in
            rw what (tt, more (rw left (drop-Fit (length (unread r) - capacity) (unread r) fit)))
        | inr h ↦
            let (what, left) = recv_next r f fs p (ground (arith, h)) in
            let (fits, others) = subst Fit p fit in rw what ((fits, e), more (rw left others))
      ]

  relay-IsWhole :
      (as' : List ChannelEvent) (r : Receiver)
      → Fit (unread r)
      → All IsFull as'
      → All IsWhole (relay B as' r).0
  unfolding relay
  relay-IsWhole [] r fit h = tt
  relay-IsWhole (broadcasts f ∷ as') r fit (fits, h) =
      relay-IsWhole as' (send f r)
        (rw (unread-send f r) (All-append _ (unread r) (f ∷ []) fit (fits, tt))) h
  relay-IsWhole (receives w ∷ as') r fit (e, h) =
      receive-Fit r w (relay B as' (recv r).1).0 fit e (λ left. relay-IsWhole as' (recv r).1 left h)

  module _ (R : Reader) where
    open R use {Half, pending, ends}

    -- A connection task that subscribes and then receives at its own pace, while frames that fit their
    -- header are broadcast and every write is completed: once it has received all that the channel still
    -- holds, the daemon at the other end has written to its clipboard, in order, the payloads of the frames that were
    -- broadcast, less as many as the task was told that it missed, and the newest is among them as the
    -- last one.
    pub newest_arrives :
        (as' : List ChannelEvent) (r : Receiver) (fuel : ℕ) (half : Half)
        → unread r ≡ []
        → All IsFull as'
        → unread (relay B as' r).1 ≡ []
        → pending half ≡ forward (relay B as' r).0
        → ends half ≡ unexpected_eof
        → length (broadcasted as') < fuel
        → (fs : List Frame) × (serve_connection R fuel half ≡ (payloads fs, some connection_closed))
          × Thinned fs (lost (relay B as' r).0) (broadcasted as')
    newest_arrives as' r fuel half fresh full drained p q h =
        let signals = (relay B as' r).0 in
        let whole = relay-IsWhole as' r (rw fresh tt) full in
        let all_sent = delivered-frames signals whole in
        let thinned : Thinned (frames signals) (lost signals) (broadcasted as') =
          subst (λ (got : List Frame). Thinned got (lost signals) (broadcasted as'))
            (append-nil (frames signals))
            (subst
              (λ (u : List Frame). Thinned (frames signals ++ u) (lost signals) (broadcasted as'))
              drained
              (subst
                (λ (u : List Frame).
                  Thinned (frames signals ++ unread (relay B as' r).1) (lost signals)
                    (u ++ broadcasted as'))
                fresh (relay-Thinned B as' r))) in
        (
          frames signals,
          serve_connection-forward R signals fuel half (All-mono _ _ IsWhole-IsCut signals whole) p
                q (rw all_sent (omega (arith, thinned.counted, h)))
              ∙ ap (λ (fs : List Frame). (payloads fs, some connection_closed)) all_sent,
          thinned,
        )
