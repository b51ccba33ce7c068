-- ===== src/Clipboard/Echo/AnyOrder.antt =====
-- One new image settles on both clipboards, in whatever order the two daemons take their turns.
use tassh.Protocol.{new_png}
use tassh.Clipboard.Echo.{show, sends, recorded, Frame}
use tassh.Clipboard.Echo.Known.{IsNew, sends-IsNew, sends-IsKnown, text_eq_differ}
use tassh.Clipboard.Echo.Turns.{
  Pair, Turn, left_polls, right_polls, left_writes, right_writes, turn, turns, sent_by, sent_in,
}
use tassh.Prelude.{
  append-nil, append_assoc, sym, ap₂, Text, List, Option, ℕ, [], ◌∷◌, ◌≡◌, ◌≢◌, some, refl, ◌≤◌, ap,
  ◌++◌, arith, ◌∙◌,
}

-- How far the image has come: at the left only, on its way, written at the right, on its way back, and
-- known to both.
pub data Stage : Type 0 where
  copied sending arrived returning settled : Stage

unfoldable pub advance : Turn → Stage → Stage
advance left_polls copied = sending
advance right_writes sending = arrived
advance right_polls arrived = returning
advance left_writes returning = settled
advance _ s = s

unfoldable pub stage_of : List Turn → Stage → Stage
unfolding advance
stage_of [] s = s
stage_of (t ∷ ts) s = stage_of ts (advance t s)

module _ (content_hash : List ℕ → Text) (png old : List ℕ) (before : Option Text) where
  -- The two daemons at a stage; `old` is what the right had, and knew.
  unfoldable pub at_stage : Stage → Pair
  at_stage copied = record {
    left = record { clipboard = png; last_hash = before };
    right = record { clipboard = old; last_hash = some (content_hash old) };
    to_left = [];
    to_right = [];
  }
  at_stage sending = record {
    left = record { clipboard = png; last_hash = some (content_hash png) };
    right = record { clipboard = old; last_hash = some (content_hash old) };
    to_left = [];
    to_right = new_png png ∷ [];
  }
  at_stage arrived = record {
    left = record { clipboard = png; last_hash = some (content_hash png) };
    right = record { clipboard = png; last_hash = some (content_hash old) };
    to_left = [];
    to_right = [];
  }
  at_stage returning = record {
    left = record { clipboard = png; last_hash = some (content_hash png) };
    right = record { clipboard = png; last_hash = some (content_hash png) };
    to_left = new_png png ∷ [];
    to_right = [];
  }
  at_stage settled = record {
    left = record { clipboard = png; last_hash = some (content_hash png) };
    right = record { clipboard = png; last_hash = some (content_hash png) };
    to_left = [];
    to_right = [];
  }

  module _ (new : IsNew content_hash (record { clipboard = png; last_hash = before }))
      (differ : content_hash png ≢ content_hash old) where
    known_png :
        sends content_hash (record { clipboard = png; last_hash = some (content_hash png) }) ≡ []
    known_png = sends-IsKnown content_hash _ refl

    known_old :
        sends content_hash (record { clipboard = old; last_hash = some (content_hash old) }) ≡ []
    known_old = sends-IsKnown content_hash _ refl

    new_left :
        sends content_hash (record { clipboard = png; last_hash = before }) ≡ new_png png ∷ []
    new_left = sends-IsNew content_hash _ new

    new_right :
        sends content_hash (record { clipboard = png; last_hash = some (content_hash old) })
        ≡ new_png png ∷ []
    new_right = sends-IsNew content_hash _ (text_eq_differ _ _ differ)

    turn-at_stage :
        (t : Turn) (s : Stage) → turn content_hash t (at_stage s) ≡ at_stage (advance t s)
    unfolding turn at_stage advance show recorded new_png
    turn-at_stage left_polls copied = rw new_left refl
    turn-at_stage left_polls sending = rw known_png refl
    turn-at_stage left_polls arrived = rw known_png refl
    turn-at_stage left_polls returning = rw known_png refl
    turn-at_stage left_polls settled = rw known_png refl
    turn-at_stage right_polls copied = rw known_old refl
    turn-at_stage right_polls sending = rw known_old refl
    turn-at_stage right_polls arrived = rw new_right refl
    turn-at_stage right_polls returning = rw known_png refl
    turn-at_stage right_polls settled = rw known_png refl
    turn-at_stage left_writes copied = refl
    turn-at_stage left_writes sending = refl
    turn-at_stage left_writes arrived = refl
    turn-at_stage left_writes returning = refl
    turn-at_stage left_writes settled = refl
    turn-at_stage right_writes copied = refl
    turn-at_stage right_writes sending = refl
    turn-at_stage right_writes arrived = refl
    turn-at_stage right_writes returning = refl
    turn-at_stage right_writes settled = refl

    pub turns-at_stage :
        (ts : List Turn) (s : Stage) → turns content_hash ts (at_stage s) ≡ at_stage (stage_of ts s)
    unfolding turns stage_of
    turns-at_stage [] s = refl
    turns-at_stage (t ∷ ts) s =
        ap (turns content_hash ts) (turn-at_stage t s) ∙ turns-at_stage ts (advance t s)

    -- What was sent up to a stage.
    abbrev pub sent_until : Stage → List Frame
    sent_until copied = []
    sent_until sending = new_png png ∷ []
    sent_until arrived = new_png png ∷ []
    sent_until _ = new_png png ∷ new_png png ∷ []

    sent_by-at_stage :
        (t : Turn) (s : Stage)
        → sent_until s ++ sent_by content_hash t (at_stage s) ≡ sent_until (advance t s)
    unfolding sent_by at_stage advance
    sent_by-at_stage left_polls copied = rw new_left refl
    sent_by-at_stage left_polls sending = rw known_png refl
    sent_by-at_stage left_polls arrived = rw known_png refl
    sent_by-at_stage left_polls returning = rw known_png refl
    sent_by-at_stage left_polls settled = rw known_png refl
    sent_by-at_stage right_polls copied = rw known_old refl
    sent_by-at_stage right_polls sending = rw known_old refl
    sent_by-at_stage right_polls arrived = rw new_right refl
    sent_by-at_stage right_polls returning = rw known_png refl
    sent_by-at_stage right_polls settled = rw known_png refl
    sent_by-at_stage left_writes copied = refl
    sent_by-at_stage left_writes sending = refl
    sent_by-at_stage left_writes arrived = refl
    sent_by-at_stage left_writes returning = refl
    sent_by-at_stage left_writes settled = refl
    sent_by-at_stage right_writes copied = refl
    sent_by-at_stage right_writes sending = refl
    sent_by-at_stage right_writes arrived = refl
    sent_by-at_stage right_writes returning = refl
    sent_by-at_stage right_writes settled = refl

    pub sent_in-at_stage :
        (ts : List Turn) (s : Stage)
        → sent_until s ++ sent_in content_hash ts (at_stage s) ≡ sent_until (stage_of ts s)
    unfolding sent_in stage_of
    sent_in-at_stage [] s = append-nil (sent_until s)
    sent_in-at_stage (t ∷ ts) s =
        sym (append_assoc (sent_until s) (sent_by content_hash t (at_stage s)) _)
        ∙ ap₂ (λ (xs : List Frame) p. xs ++ sent_in content_hash ts p) (sent_by-at_stage t s)
            (turn-at_stage t s)
        ∙ sent_in-at_stage ts (advance t s)

-- The stages in their order.
abbrev pub rank : Stage → ℕ
rank copied = 0
rank sending = 1
rank arrived = 2
rank returning = 3
rank settled = 4

rank-advance : (t : Turn) (s : Stage) → rank s ≤ rank (advance t s)
unfolding advance
rank-advance left_polls copied = omega arith
rank-advance left_polls sending = omega arith
rank-advance left_polls arrived = omega arith
rank-advance left_polls returning = omega arith
rank-advance left_polls settled = omega arith
rank-advance right_polls copied = omega arith
rank-advance right_polls sending = omega arith
rank-advance right_polls arrived = omega arith
rank-advance right_polls returning = omega arith
rank-advance right_polls settled = omega arith
rank-advance left_writes copied = omega arith
rank-advance left_writes sending = omega arith
rank-advance left_writes arrived = omega arith
rank-advance left_writes returning = omega arith
rank-advance left_writes settled = omega arith
rank-advance right_writes copied = omega arith
rank-advance right_writes sending = omega arith
rank-advance right_writes arrived = omega arith
rank-advance right_writes returning = omega arith
rank-advance right_writes settled = omega arith

pub rank-stage_of : (ts : List Turn) (s : Stage) → rank s ≤ rank (stage_of ts s)
unfolding stage_of
rank-stage_of [] s = omega arith
rank-stage_of (t ∷ ts) s = omega (arith, rank-advance t s, rank-stage_of ts (advance t s))
