-- ===== src/Strings/Words.antt =====
-- Rust's `lines` and `split_whitespace`.
use tassh.Strings.{is_whitespace, starts_with_char}
use tassh.Prelude.{ℕ, List, Text, codes, ◌∷◌, ◌≡◌, if◌then◌else◌, [], ◌==◌, refl, ◌&&◌}

abbrev pub cons_first : ℕ → List Text → List Text
cons_first c [] = (c ∷ []) ∷ []
cons_first c (l ∷ ls) = (c ∷ l) ∷ ls

-- A line ends in a line feed or in a carriage return and a line feed; the last need not.
unfoldable pub lines : Text → List Text
unfolding starts_with_char
lines [] = []
lines (c ∷ s) =
    let rest = lines s in
    if c == 10
    then [] ∷ rest
    else if c == 13 && starts_with_char 10 s
    then rest
    else cons_first c rest

abbrev pub push_word : Text → List Text → List Text
push_word [] ws = ws
push_word (c ∷ w) ws = (c ∷ w) ∷ ws

-- The word at the start, and the words behind it.
unfoldable pub words_from : Text → Text × List Text
unfolding is_whitespace
words_from [] = ([], [])
words_from (c ∷ s) =
    let (w, ws) = words_from s in if is_whitespace c then ([], push_word w ws) else (c ∷ w, ws)

unfoldable pub split_whitespace : Text → List Text
unfolding words_from
split_whitespace s = let (w, ws) = words_from s in push_word w ws

lines_test : lines (codes "ab\n\nc\r\nd") ≡ codes "ab" ∷ [] ∷ codes "c" ∷ codes "d" ∷ []
unfolding lines
lines_test = refl

split_whitespace_test :
    split_whitespace (codes " 7 ssh  box ") ≡ codes "7" ∷ codes "ssh" ∷ codes "box" ∷ []
unfolding split_whitespace
split_whitespace_test = refl
