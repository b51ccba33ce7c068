-- ===== src/Clipboard/Echo/Fair.antt =====
-- The turns that one new image waits for.
use tassh.Protocol.{new_png}
use tassh.Clipboard.Echo.{Side}
use tassh.Clipboard.Echo.Known.{IsNew, IsKnown}
use tassh.Clipboard.Echo.Turns.{
  Pair, Turn, left_polls, right_polls, left_writes, right_writes, turns, sent_in,
}
use tassh.Clipboard.Echo.AnyOrder.{
  Stage, copied, sending, arrived, returning, settled, advance, stage_of, rank, rank-stage_of,
  at_stage, turns-at_stage, sent_in-at_stage, sent_until,
}
use tassh.Prelude.{
  Text, List, Option, ℕ, [], ◌∷◌, ◌++◌, ◌≡◌, ◌≢◌, some, refl, suc, ◌≤◌, arith, ap, ◌∙◌, sym, subst,
}

stage_of-append :
    (ts us : List Turn) (s : Stage) → stage_of (ts ++ us) s ≡ stage_of us (stage_of ts s)
unfolding stage_of
stage_of-append [] us s = refl
stage_of-append (t ∷ ts) us s = stage_of-append ts us (advance t s)

-- The turn on which a stage waits.
abbrev Awaited : ℕ → Turn → Type 0
Awaited n t = (s : Stage) → n ≤ rank s → suc n ≤ rank (advance t s)

left_polls-Awaited : Awaited 0 left_polls
unfolding advance
left_polls-Awaited copied h = omega arith
left_polls-Awaited sending h = omega arith
left_polls-Awaited arrived h = omega arith
left_polls-Awaited returning h = omega arith
left_polls-Awaited settled h = omega arith

right_writes-Awaited : Awaited 1 right_writes
unfolding advance
right_writes-Awaited copied h = absurd (omega arith)
right_writes-Awaited sending h = omega arith
right_writes-Awaited arrived h = omega arith
right_writes-Awaited returning h = omega arith
right_writes-Awaited settled h = omega arith

right_polls-Awaited : Awaited 2 right_polls
unfolding advance
right_polls-Awaited copied h = absurd (omega arith)
right_polls-Awaited sending h = absurd (omega arith)
right_polls-Awaited arrived h = omega arith
right_polls-Awaited returning h = omega arith
right_polls-Awaited settled h = omega arith

left_writes-Awaited : Awaited 3 left_writes
unfolding advance
left_writes-Awaited copied h = absurd (omega arith)
left_writes-Awaited sending h = absurd (omega arith)
left_writes-Awaited arrived h = absurd (omega arith)
left_writes-Awaited returning h = omega arith
left_writes-Awaited settled h = omega arith

-- Whatever turns come first, the awaited one brings the image on.
stage_of-Awaited :
    (n : ℕ) (t : Turn) (ts us : List Turn) (s : Stage)
    → Awaited n t
    → n ≤ rank s
    → (m : Stage) × (stage_of (ts ++ t ∷ us) s ≡ stage_of us m) × (suc n ≤ rank m)
unfolding stage_of
stage_of-Awaited n t ts us s w h = (
  advance t (stage_of ts s),
  stage_of-append ts (t ∷ us) s,
  w (stage_of ts s) (omega (arith, h, rank-stage_of ts s)),
)

rank-settled : (s : Stage) → 4 ≤ rank s → s ≡ settled
rank-settled copied h = absurd (omega arith)
rank-settled sending h = absurd (omega arith)
rank-settled arrived h = absurd (omega arith)
rank-settled returning h = absurd (omega arith)
rank-settled settled h = refl

stage_of-settled :
    (as' bs cs ds es : List Turn)
    → stage_of
        (as' ++ left_polls ∷ (bs ++ right_writes ∷ (cs ++ right_polls ∷ (ds ++ left_writes ∷ es))))
        copied
      ≡ settled
stage_of-settled as' bs cs ds es =
    let (s, e, h) = stage_of-Awaited 0 left_polls as' _ copied left_polls-Awaited (omega arith) in
    let (t, f, i) = stage_of-Awaited 1 right_writes bs _ s right_writes-Awaited h in
    let (u, g, j) = stage_of-Awaited 2 right_polls cs _ t right_polls-Awaited i in
    let (v, k, l) = stage_of-Awaited 3 left_writes ds es u left_writes-Awaited j in
    e ∙ f ∙ g ∙ k ∙ rank-settled (stage_of es v) (omega (arith, l, rank-stage_of es v))

module _ (content_hash : List ℕ → Text) where
  -- Where one side comes to a new image while the other knows its own, which has another hash, and nothing
  -- is on the way: once the one polled, the other wrote and then polled, and the one wrote, with any
  -- turns before, between and behind them, both sides have the image and know it, nothing is on the
  -- way, and exactly two frames were sent, each with the image.
  pub image_settles_in_any_order :
      (a b : Side) (as' bs cs ds es : List Turn)
      → IsNew content_hash a
      → IsKnown content_hash b
      → content_hash a.clipboard ≢ content_hash b.clipboard
      → let ts =
          as'
          ++ left_polls ∷ (bs ++ right_writes ∷ (cs ++ right_polls ∷ (ds ++ left_writes ∷ es))) in
        let start : Pair = record { left = a; right = b; to_left = []; to_right = [] } in
        let both : Side = record {
          clipboard = a.clipboard;
          last_hash = some (content_hash a.clipboard);
        } in
        (turns content_hash ts start
          ≡ record { left = both; right = both; to_left = []; to_right = [] })
        × (sent_in content_hash ts start ≡ new_png a.clipboard ∷ new_png a.clipboard ∷ [])
  unfolding at_stage
  image_settles_in_any_order a b as' bs cs ds es new known differ =
      let ts =
        as' ++ left_polls ∷ (bs ++ right_writes ∷ (cs ++ right_polls ∷ (ds ++ left_writes ∷ es))) in
      let png = a.clipboard in
      let old = b.clipboard in
      let before = a.last_hash in
      let settles : Pair → Type 0 = λ p.
        (turns content_hash ts p ≡ at_stage content_hash png old before settled)
        × (sent_in content_hash ts p ≡ new_png png ∷ new_png png ∷ []) in
      let same =
        ap
          (λ (l : Option Text).
            let p : Pair = record {
              left = a;
              right = record { clipboard = old; last_hash = l };
              to_left = [];
              to_right = [];
            } in
            p)
          known in
      let last = stage_of-settled as' bs cs ds es in
      subst settles (sym same) (
        turns-at_stage content_hash png old before new differ ts copied
            ∙ ap (at_stage content_hash png old before) last,
        sent_in-at_stage content_hash png old before new differ ts copied
            ∙ ap (sent_until content_hash png old before new differ) last,
      )
