-- ===== src/Strings/Trim.antt =====
-- Trimming leaves a text alone that has nothing to trim at its ends.
use tassh.Strings.{drop_while, drop_end_while, trim_matches, to_ascii_lowercase, ascii_lower}
use tassh.Prelude.{ℕ, refl, false, Bool, ◌≡◌, Text, All, arith, ◌∷◌, ap₂, [], true, ◌++◌}

-- No character passes the test.
abbrev pub NonePass : (ℕ → Bool) → Text → Type 0
NonePass p = All (λ c. p c ≡ false)

drop_while_none : (p : ℕ → Bool) (s : Text) → NonePass p s → drop_while p s ≡ s
unfolding drop_while
drop_while_none p [] h = refl
drop_while_none p (c ∷ s) (hc, h) = ground arith

drop_end_while_none : (p : ℕ → Bool) (s : Text) → NonePass p s → drop_end_while p s ≡ s
unfolding drop_end_while
drop_end_while_none p [] h = refl
drop_end_while_none p (c ∷ []) (hc, h) = ground arith
drop_end_while_none p (c ∷ x ∷ s) (hc, h) = ground (arith, drop_end_while_none p (x ∷ s) h)

pub trim_matches_none : (p : ℕ → Bool) (s : Text) → NonePass p s → trim_matches p s ≡ s
unfolding trim_matches
trim_matches_none p s h = rw (drop_while_none p s h) (drop_end_while_none p s h)

ascii_lower_idem : (c : ℕ) → ascii_lower (ascii_lower c) ≡ ascii_lower c
unfolding ascii_lower
ascii_lower_idem c = ground arith

pub to_ascii_lowercase_none : (s : Text) → All (λ c. ascii_lower c ≡ c) s → to_ascii_lowercase s ≡ s
unfolding to_ascii_lowercase
to_ascii_lowercase_none [] h = refl
to_ascii_lowercase_none (c ∷ s) (hc, h) = ap₂ ◌∷◌ hc (to_ascii_lowercase_none s h)

-- Every character of the lower-cased text is its own lower case.
pub to_ascii_lowercase-lower : (s : Text) → All (λ c. ascii_lower c ≡ c) (to_ascii_lowercase s)
unfolding to_ascii_lowercase
to_ascii_lowercase-lower [] = tt
to_ascii_lowercase-lower (c ∷ s) = (ascii_lower_idem c, to_ascii_lowercase-lower s)

drop_end_while-append :
    (p : ℕ → Bool) (s : Text) (c : ℕ)
    → NonePass p s
    → p c ≡ true
    → drop_end_while p (s ++ c ∷ []) ≡ s
unfolding drop_end_while
drop_end_while-append p [] c h e = ground arith
drop_end_while-append p (x ∷ []) c (hx, h) e = ground arith
drop_end_while-append p (x ∷ y ∷ s) c (hx, h) e =
    ground (arith, drop_end_while-append p (y ∷ s) c h e)

-- One character that is trimmed, behind a text that has none.
pub trim_matches-append :
    (p : ℕ → Bool) (s : Text) (c : ℕ) → NonePass p s → p c ≡ true → trim_matches p (s ++ c ∷ []) ≡ s
unfolding trim_matches drop_while
trim_matches-append p [] c h e = ground (arith, drop_end_while_none p [] tt)
trim_matches-append p (x ∷ s) c (hx, h) e =
    ground (arith, drop_end_while-append p (x ∷ s) c (hx, h) e)
