-- ===== src/Clipboard/Echo/Turns.antt =====
-- Two daemons with sessions to each other, whose polls and writes come in any order: what one sends is on
-- its way until the other writes it.
use tassh.Protocol.{Frame}
use tassh.Clipboard.Echo.{Side, show, sends, recorded}
use tassh.Prelude.{Text, List, ℕ, [], ◌∷◌, ◌++◌}

pub record Pair : Type 0 where
  pub left : Side
  pub right : Side
  -- the frames on the way, the oldest first
  pub to_left : List Frame
  pub to_right : List Frame

pub data Turn : Type 0 where
  -- the watcher of a side polls, and what it sends is on the way
  left_polls right_polls : Turn
  -- a side writes the oldest frame to its clipboard, if there is one
  left_writes right_writes : Turn

abbrev write_left : List Frame → Pair → Pair
write_left [] p = p
write_left (f ∷ fs) p = record p { left = show (f ∷ []) p.left; to_left = fs }

abbrev write_right : List Frame → Pair → Pair
write_right [] p = p
write_right (f ∷ fs) p = record p { right = show (f ∷ []) p.right; to_right = fs }

module _ (content_hash : List ℕ → Text) where
  unfoldable pub turn : Turn → Pair → Pair
  unfolding show sends recorded
  turn left_polls p = record p {
    left = recorded content_hash p.left;
    to_right = p.to_right ++ sends content_hash p.left;
  }
  turn right_polls p = record p {
    right = recorded content_hash p.right;
    to_left = p.to_left ++ sends content_hash p.right;
  }
  turn left_writes p = write_left p.to_left p
  turn right_writes p = write_right p.to_right p

  -- What a turn sends.
  unfoldable pub sent_by : Turn → Pair → List Frame
  unfolding sends
  sent_by left_polls p = sends content_hash p.left
  sent_by right_polls p = sends content_hash p.right
  sent_by _ p = []

  unfoldable pub turns : List Turn → Pair → Pair
  unfolding turn
  turns [] p = p
  turns (t ∷ ts) p = turns ts (turn t p)

  unfoldable pub sent_in : List Turn → Pair → List Frame
  unfolding sent_by turn
  sent_in [] p = []
  sent_in (t ∷ ts) p = sent_by t p ++ sent_in ts (turn t p)
