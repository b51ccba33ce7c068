-- ===== src/Clipboard/Echo/Swap.antt =====
-- An order of polls and writes in which two daemons never come to rest.
use tassh.Protocol.{new_png}
use tassh.Clipboard.Echo.{Side, show, sends, recorded}
use tassh.Clipboard.Echo.Known.{IsNew, sends-IsNew, text_eq_differ}
use tassh.Clipboard.Echo.Turns.{
  Pair, Turn, left_polls, right_polls, left_writes, right_writes, turn, turns, sent_by, sent_in,
}
use tassh.Prelude.{
  ℕ, Text, List, Bool, true, false, some, [], ◌∷◌, ◌++◌, ◌≡◌, ◌≢◌, ◌+◌, ◌*◌, length, arith, refl,
  sym,
}

-- Both poll, the left one first or not, and then both write, the left one first or not.
abbrev pub interval : Bool × Bool → List Turn
interval (true, true) = left_polls ∷ right_polls ∷ left_writes ∷ right_writes ∷ []
interval (true, false) = left_polls ∷ right_polls ∷ right_writes ∷ left_writes ∷ []
interval (false, true) = right_polls ∷ left_polls ∷ left_writes ∷ right_writes ∷ []
interval (false, false) = right_polls ∷ left_polls ∷ right_writes ∷ left_writes ∷ []

abbrev pub intervals : List (Bool × Bool) → List Turn
intervals [] = []
intervals (i ∷ is) = interval i ++ intervals is

-- Nothing is on the way.
abbrev pub at_rest : Side → Side → Pair
at_rest a b = record { left = a; right = b; to_left = []; to_right = [] }

module _ (content_hash : List ℕ → Text) where
  -- A side that has sent its image and shows the other one.
  abbrev swapped : Side → Side → Side
  swapped a b = record { clipboard = b.clipboard; last_hash = some (content_hash a.clipboard) }

  record IsCrossed (a b : Side) : Type 0 where
    left : IsNew content_hash a
    right : IsNew content_hash b
    differ : content_hash a.clipboard ≢ content_hash b.clipboard

  swapped-IsCrossed : (a b : Side) → IsCrossed a b → IsCrossed (swapped a b) (swapped b a)
  swapped-IsCrossed a b c = record {
    left = text_eq_differ _ _ (λ e. c.differ (sym e));
    right = text_eq_differ _ _ c.differ;
    differ = λ e. c.differ (sym e);
  }

  interval-swaps :
      (i : Bool × Bool) (a b : Side) (rest : List Turn)
      → IsCrossed a b
      → (turns content_hash (interval i ++ rest) (at_rest a b)
          ≡ turns content_hash rest (at_rest (swapped a b) (swapped b a)))
        × (length (sent_in content_hash (interval i ++ rest) (at_rest a b))
            ≡ 2 + length (sent_in content_hash rest (at_rest (swapped a b) (swapped b a))))
  unfolding turns turn sent_in sent_by show recorded new_png
  interval-swaps (true, true) a b rest c =
      rw (sends-IsNew content_hash a c.left, sends-IsNew content_hash b c.right) (refl, omega arith)
  interval-swaps (true, false) a b rest c =
      rw (sends-IsNew content_hash a c.left, sends-IsNew content_hash b c.right) (refl, omega arith)
  interval-swaps (false, true) a b rest c =
      rw (sends-IsNew content_hash a c.left, sends-IsNew content_hash b c.right) (refl, omega arith)
  interval-swaps (false, false) a b rest c =
      rw (sends-IsNew content_hash a c.left, sends-IsNew content_hash b c.right) (refl, omega arith)

  -- What a number of intervals does to two sides that are both to send.
  record Swaps (is : List (Bool × Bool)) (a b : Side) : Type 0 where
    count : length (sent_in content_hash (intervals is) (at_rest a b)) ≡ 2 * length is
    left : Side
    right : Side
    ends : turns content_hash (intervals is) (at_rest a b) ≡ at_rest left right
    crossed : IsCrossed left right

  intervals-Swaps : (is : List (Bool × Bool)) (a b : Side) → IsCrossed a b → Swaps is a b
  unfolding turns sent_in
  intervals-Swaps [] a b c = record { count = refl; left = a; right = b; ends = refl; crossed = c }
  intervals-Swaps (i ∷ is) a b c =
      let (same, sent) = interval-swaps i a b (intervals is) c in
      let r = intervals-Swaps is (swapped a b) (swapped b a) (swapped-IsCrossed a b c) in
      record {
        count = omega (arith, sent, r.count);
        left = r.left;
        right = r.right;
        ends = cc (same, r.ends);
        crossed = r.crossed;
      }

  -- Two sides that come to a new image each, which differ by their hashes, while nothing is on the way: as long
  -- as in each interval both watchers poll before either side writes, in whichever order, both send in each
  -- interval, and behind it both are to send again, with images that differ.
  pub images_swap_in_step :
      (a b : Side) (is : List (Bool × Bool))
      → IsNew content_hash a
      → IsNew content_hash b
      → content_hash a.clipboard ≢ content_hash b.clipboard
      → let p = at_rest a b in
        let q = turns content_hash (intervals is) p in
        (length (sent_in content_hash (intervals is) p) ≡ 2 * length is)
        × (sends content_hash q.left ≡ new_png q.left.clipboard ∷ [])
        × (sends content_hash q.right ≡ new_png q.right.clipboard ∷ [])
        × (content_hash q.left.clipboard ≢ content_hash q.right.clipboard)
  images_swap_in_step a b is ha hb hd =
      let r = intervals-Swaps is a b (record { left = ha; right = hb; differ = hd }) in
      let c = r.crossed in
      rw r.ends
        (r.count, sends-IsNew content_hash _ c.left, sends-IsNew content_hash _ c.right, c.differ)
