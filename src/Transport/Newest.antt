-- ===== src/Transport/Newest.antt =====
-- What a connection task that falls behind makes of the frames that are broadcast.
use mathlib.Core.List.{Sublist}
use mathlib.Core.List.Sublist
use tassh.Protocol.{Frame}
use tassh.Transport.Forward.{Signal, lagged, Write, received}
use tassh.Transport.Relay.{frames}
use tassh.Transport.Broadcast.{
  capacity, Broadcast, ChannelEvent, broadcasts, receives, report, broadcasted, relay,
}
use tassh.Prelude.{
  Bool-cases, ltb, ℕ, zero, suc, List, Option, some, none, [], ◌∷◌, ◌++◌, ◌≡◌, ◌<◌, ◌+◌, length,
  drop, arith, refl, sym, ◌∙◌, ap, length-append, length-drop, subst, append-nil, append_assoc, inl,
  ◌-◌, inr,
}

-- How many frames the task was told that it missed.
abbrev pub lost : List Signal → ℕ
lost [] = 0
lost (lagged n ∷ rest) = n + lost rest
lost (_ ∷ rest) = lost rest

abbrev or_last : Frame → Option Frame → Option Frame
or_last f none = some f
or_last f (some g) = some g

abbrev pub newest : List Frame → Option Frame
newest [] = none
newest (f ∷ fs) = or_last f (newest fs)

drop-Sublist : (n : ℕ) (fs : List Frame) → Sublist (drop n fs) fs
drop-Sublist zero fs = Sublist.refl fs
drop-Sublist (suc n) [] = Sublist.refl []
drop-Sublist (suc n) (f ∷ fs) = Sublist.cons f (drop-Sublist n fs)

or_last-append :
    (f g : Frame) (fs gs : List Frame) → newest (f ∷ (g ∷ fs ++ gs)) ≡ newest (g ∷ fs ++ gs)
or_last-append f g fs gs = ground (arith)

newest-drop :
    (n : ℕ) (fs gs : List Frame) → n < length fs → newest (drop n fs ++ gs) ≡ newest (fs ++ gs)
newest-drop zero fs gs h = refl
newest-drop (suc n) [] gs h = absurd (omega arith)
newest-drop (suc n) (f ∷ []) gs h = absurd (omega arith)
newest-drop (suc n) (f ∷ g ∷ fs) gs h =
    newest-drop n (g ∷ fs) gs (omega arith) ∙ sym (or_last-append f g fs gs)

-- Some frames of a list in their order, with the newest, and how many are missing.
pub record Thinned (got : List Frame) (missing : ℕ) (all : List Frame) : Type 0 where
  pub in_order : Sublist got all
  pub to_newest : newest got ≡ newest all
  pub counted : length got + missing ≡ length all

Thinned-self : (fs : List Frame) → Thinned fs 0 fs
Thinned-self fs = record { in_order = Sublist.refl fs; to_newest = refl; counted = omega arith }

Thinned-cons :
    (f : Frame) {got all : List Frame} {n : ℕ} → Thinned got n all → Thinned (f ∷ got) n (f ∷ all)
Thinned-cons f t = record {
  in_order = Sublist.cons-cons f t.in_order;
  to_newest = ap (or_last f) t.to_newest;
  counted = omega (arith, t.counted);
}

Thinned-drop :
    (n : ℕ) (fs gs : List Frame) {got : List Frame} {m : ℕ}
    → n < length fs
    → Thinned got m (drop n fs ++ gs)
    → Thinned got (n + m) (fs ++ gs)
Thinned-drop n fs gs h t = record {
  in_order = Sublist.trans t.in_order (Sublist.append (drop-Sublist n fs) (Sublist.refl gs));
  to_newest = t.to_newest ∙ newest-drop n fs gs h;
  counted =
      omega
        (arith, t.counted, length-append (drop n fs) gs, length-append fs gs, length-drop n fs, h);
}

-- The task gets what is broadcast, in order, up to what it is told that it missed, and always the newest.
abbrev Kept : List Frame → List Signal → List Frame → Type 0
Kept unread signals all = Thinned (frames signals ++ unread) (lost signals) all

module _ (B : Broadcast) where
  open B use {Receiver, unread, send, recv, unread-send, recv_empty, recv_next, recv_behind}

  -- One receive, by the backlog.
  receive-Kept :
      (r : Receiver) (w : Write) (sent last : List Frame) (rest : List Signal)
      → Kept last rest (unread (recv r).1 ++ sent)
      → Kept last (report (recv r).0 w rest) (unread r ++ sent)
  unfolding frames
  receive-Kept r w sent last rest k = go (unread r) refl
    where
      go :
          (fs : List Frame)
          → unread r ≡ fs
          → Kept last (report (recv r).0 w rest) (unread r ++ sent)
      go [] e =
          let (what, left) = recv_empty r e in
          rw what (subst (λ u. Kept last rest (u ++ sent)) (left ∙ sym e) k)
      go (f ∷ fs) e = elim (Bool-cases (ltb capacity (length (unread r)))) [
        | inl h ↦
            let (what, left) = recv_behind r (ground (arith, h)) in
            rw what (
              Thinned-drop (length (unread r) - capacity) (unread r) sent (ground (arith, h))
                (subst (λ u. Kept last rest (u ++ sent)) left k))
        | inr h ↦
            let (what, left) = recv_next r f fs e (ground (arith, h)) in
            rw what (
              subst (λ u. Kept last (received f w ∷ rest) (u ++ sent)) (sym e)
                (Thinned-cons f (subst (λ u. Kept last rest (u ++ sent)) left k)))
      ]

  -- Whatever is broadcast and received in whatever order: the frames that the task gets, followed by those
  -- that it has yet to receive, are those that were there and that were broadcast, in order, less as
  -- many as it was told that it missed, and with the newest one.
  pub relay-Thinned :
      (as' : List ChannelEvent) (r : Receiver)
      → let (signals, last) = relay B as' r in
        Thinned (frames signals ++ unread last) (lost signals) (unread r ++ broadcasted as')
  unfolding relay frames broadcasted
  relay-Thinned [] r = rw (append-nil (unread r)) (Thinned-self (unread r))
  relay-Thinned (broadcasts f ∷ as') r =
      let rest = relay-Thinned as' (send f r) in
      subst
        (λ (all : List Frame).
          Thinned (frames (relay B as' (send f r)).0 ++ unread (relay B as' (send f r)).1)
            (lost (relay B as' (send f r)).0) all)
        (ap (λ (u : List Frame). u ++ broadcasted as') (unread-send f r)
          ∙ append_assoc (unread r) (f ∷ []) (broadcasted as'))
        rest
  relay-Thinned (receives w ∷ as') r =
      receive-Kept r w (broadcasted as') (unread (relay B as' (recv r).1).1)
        (relay B as' (recv r).1).0 (relay-Thinned as' (recv r).1)
