-- ===== src/Strings/Search.antt =====
-- Rust's `contains` with a text, and `ends_with` with a character.
use tassh.Strings.{is_empty}
use tassh.Prelude.{Text, Bool, ◌∷◌, ◌==◌, ◌||◌, ◌&&◌, [], true, false, ◌++◌, ◌≡◌, refl, arith, ℕ}

-- s.starts_with(needle)
unfoldable pub starts_with : Text → Text → Bool
starts_with [] s = true
starts_with (a ∷ needle) [] = false
starts_with (a ∷ needle) (b ∷ s) = a == b && starts_with needle s

-- s.contains(needle)
unfoldable pub contains_text : Text → Text → Bool
unfolding starts_with
contains_text needle [] = is_empty needle
contains_text needle (c ∷ s) = starts_with needle (c ∷ s) || contains_text needle s

-- s.ends_with(c)
unfoldable pub ends_with_char : ℕ → Text → Bool
ends_with_char c [] = false
ends_with_char c (x ∷ []) = x == c
ends_with_char c (x ∷ y ∷ s) = ends_with_char c (y ∷ s)

starts_with-append : (needle s : Text) → starts_with needle (needle ++ s) ≡ true
unfolding starts_with
starts_with-append [] s = refl
starts_with-append (a ∷ needle) s = ground (arith, starts_with-append needle s)

contains_text-prefix : (needle s : Text) → contains_text needle (needle ++ s) ≡ true
unfolding contains_text
contains_text-prefix [] [] = refl
contains_text-prefix [] (c ∷ s) = ground arith
contains_text-prefix (a ∷ needle) s = ground (arith, starts_with-append (a ∷ needle) s)

-- A text that stands inside another is found.
pub contains_text-append :
    (before needle after : Text) → contains_text needle (before ++ (needle ++ after)) ≡ true
unfolding contains_text
contains_text-append [] needle after = contains_text-prefix needle after
contains_text-append (c ∷ before) needle after =
    ground (arith, contains_text-append before needle after)
