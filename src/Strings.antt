-- ===== src/Strings.antt =====
-- The functions on `str` and `char` of Rust's standard library that the sources call, over code
-- points.
use tassh.Prelude.{
  ℕ, Text, Bool, if◌then◌else◌, Option, ◌∷◌, leb, true, false, ◌==◌, none, [], ◌&&◌, ◌||◌, some,
  ◌+◌, map_option,
}
pub mod Trim
pub mod Split
pub mod Search
pub mod Numbers
pub mod Words

-- char::is_whitespace: the code points with the property White_Space.
unfoldable pub is_whitespace : ℕ → Bool
is_whitespace c =
    (leb 9 c && leb c 13)
    || c == 32
    || c == 0x85
    || c == 0xa0
    || c == 0x1680
    || (leb 0x2000 c && leb c 0x200a)
    || c == 0x2028
    || c == 0x2029
    || c == 0x202f
    || c == 0x205f
    || c == 0x3000

unfoldable pub is_ascii_alphanumeric : ℕ → Bool
is_ascii_alphanumeric c =
    (leb b'0' c && leb c b'9') || (leb b'a' c && leb c b'z') || (leb b'A' c && leb c b'Z')

unfoldable pub ascii_lower : ℕ → ℕ
ascii_lower c = if leb b'A' c && leb c b'Z' then c + 32 else c

unfoldable pub to_ascii_lowercase : Text → Text
unfolding ascii_lower
to_ascii_lowercase [] = []
to_ascii_lowercase (c ∷ s) = ascii_lower c ∷ to_ascii_lowercase s

abbrev pub is_empty : Text → Bool
is_empty [] = true
is_empty (c ∷ s) = false

-- s.contains(c)
unfoldable pub has_char : ℕ → Text → Bool
has_char c [] = false
has_char c (x ∷ s) = x == c || has_char c s

unfoldable pub starts_with_char : ℕ → Text → Bool
starts_with_char c [] = false
starts_with_char c (x ∷ s) = x == c

unfoldable pub drop_while : (ℕ → Bool) → Text → Text
drop_while p [] = []
drop_while p (c ∷ s) = let rest = drop_while p s in if p c then rest else c ∷ s

abbrev cons_unless : (ℕ → Bool) → ℕ → Text → Text
cons_unless p c [] = if p c then [] else c ∷ []
cons_unless p c (x ∷ s) = c ∷ x ∷ s

-- trim_end_matches
unfoldable pub drop_end_while : (ℕ → Bool) → Text → Text
drop_end_while p [] = []
drop_end_while p (c ∷ s) = cons_unless p c (drop_end_while p s)

-- trim_matches
unfoldable pub trim_matches : (ℕ → Bool) → Text → Text
unfolding drop_while drop_end_while
trim_matches p s = drop_end_while p (drop_while p s)

unfoldable pub trim : Text → Text
unfolding trim_matches is_whitespace
trim s = trim_matches is_whitespace s

-- s.split(c).next()
unfoldable pub before_first : ℕ → Text → Text
before_first c [] = []
before_first c (x ∷ s) = if x == c then [] else x ∷ before_first c s

-- s.rsplit(c).next()
unfoldable pub after_last : ℕ → Text → Text
unfolding has_char
after_last c [] = []
after_last c (x ∷ s) =
    let rest = after_last c s in if has_char c s then rest else if x == c then s else x ∷ s

-- s.strip_prefix(c)
unfoldable pub strip_prefix : ℕ → Text → Option Text
strip_prefix c [] = none
strip_prefix c (x ∷ s) = if x == c then some s else none

-- s.strip_suffix(c)
unfoldable pub strip_suffix : ℕ → Text → Option Text
strip_suffix c [] = none
strip_suffix c (x ∷ []) = if x == c then some [] else none
strip_suffix c (x ∷ y ∷ s) = map_option (λ r. x ∷ r) (strip_suffix c (y ∷ s))
