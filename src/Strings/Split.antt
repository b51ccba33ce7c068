-- ===== src/Strings/Split.antt =====
-- The part before the first separator, and the part behind the last.
use tassh.Strings.{has_char, before_first, after_last}
use tassh.Strings.Trim.{NonePass}
use tassh.Prelude.{ℕ, refl, true, false, Text, ◌==◌, ◌≡◌, ◌++◌, ◌∷◌, arith, []}

-- The text does not hold the character.
abbrev pub Lacks : ℕ → Text → Type 0
Lacks c = NonePass (λ x. x == c)

pub has_char-Lacks : (c : ℕ) (s : Text) → Lacks c s → has_char c s ≡ false
unfolding has_char
has_char-Lacks c [] h = refl
has_char-Lacks c (x ∷ s) (hx, h) = ground (arith, has_char-Lacks c s h)

pub before_first-append : (c : ℕ) (s t : Text) → Lacks c s → before_first c (s ++ c ∷ t) ≡ s
unfolding before_first
before_first-append c [] t h = ground arith
before_first-append c (x ∷ s) t (hx, h) = ground (arith, before_first-append c s t h)

pub before_first_none : (c : ℕ) (s : Text) → Lacks c s → before_first c s ≡ s
unfolding before_first
before_first_none c [] h = refl
before_first_none c (x ∷ s) (hx, h) = ground (arith, before_first_none c s h)

has_char-append : (c : ℕ) (s t : Text) → has_char c (s ++ c ∷ t) ≡ true
unfolding has_char
has_char-append c [] t = ground arith
has_char-append c (x ∷ s) t = ground (arith, has_char-append c s t)

pub after_last_none : (c : ℕ) (s : Text) → Lacks c s → after_last c s ≡ s
unfolding after_last
after_last_none c [] h = refl
after_last_none c (x ∷ s) (hx, h) = ground (arith, after_last_none c s h, has_char-Lacks c s h)

pub after_last-append : (c : ℕ) (s t : Text) → Lacks c t → after_last c (s ++ c ∷ t) ≡ t
unfolding after_last
after_last-append c [] t h = ground (arith, has_char-Lacks c t h)
after_last-append c (x ∷ s) t h = ground (arith, after_last-append c s t h, has_char-append c s t)
