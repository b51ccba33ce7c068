-- ===== src/Strings/Numbers.antt =====
-- Rust's `str::parse` for unsigned integers, and `Display` for them.
use tassh.Strings.{is_empty}
use tassh.Prelude.{
  ℕ, Text, ◌≤◌, Option, [], ◌≡◌, ◌<◌, Bool, suc, some, none, ◌/◌, ◌^◌, false, true, ◌+◌, arith, ◌∙◌,
  ◌∷◌, ◌*◌, if◌then◌else◌, ◌%◌, leb, ◌-◌, ◌==◌, ltb, ◌&&◌, zero, ◌||◌, All, Bool-cases, inl, inr,
}

-- The digits behind a value, refused on a character that is no digit and above the maximum.
unfoldable pub scan_digits : ℕ → Text → ℕ → Option ℕ
scan_digits max [] n = some n
scan_digits max (c ∷ s) n =
    let m = n * 10 + (c - b'0') in
    let rest = scan_digits max s m in if ltb c b'0' || ltb b'9' c || ltb max m then none else rest

-- A leading `+` is taken, a sign alone and an empty text are refused.
unfoldable pub parse_unsigned : ℕ → Text → Option ℕ
unfolding scan_digits
parse_unsigned max [] = none
parse_unsigned max (c ∷ s) =
    if c == b'+'
    then if is_empty s then none else scan_digits max s 0
    else scan_digits max (c ∷ s) 0

emit : ℕ → ℕ → Text → Text
emit zero n out = out
emit (suc k) n out =
    let rest = emit k (n / 10) ((b'0' + n % 10) ∷ out) in
    if ltb n 10 then (b'0' + n % 10) ∷ out else rest

-- Twenty digits are enough for a `usize`.
unfoldable pub to_string : ℕ → Text
unfolding emit
to_string n = emit 20 n []

scan_sound : (max : ℕ) (s : Text) (n r : ℕ) → n ≤ max → scan_digits max s n ≡ some r → r ≤ max
unfolding scan_digits
scan_sound max [] n r fits h = ground arith
scan_sound max (c ∷ s) n r fits h = ground (arith, scan_sound max s (n * 10 + (c - b'0')) r)

-- What is parsed is in range.
pub parse_unsigned-le : (max : ℕ) (s : Text) (r : ℕ) → parse_unsigned max s ≡ some r → r ≤ max
unfolding parse_unsigned
parse_unsigned-le max [] r h = cc
parse_unsigned-le max (c ∷ s) r h =
    ground (arith, scan_sound max s 0 r (omega arith), scan_sound max (c ∷ s) 0 r (omega arith))

scan-emit :
    (max k n : ℕ) (out : Text)
    → n ≤ max
    → n < 10 ^ k
    → scan_digits max (emit k n out) 0 ≡ scan_digits max out n
unfolding scan_digits emit
scan-emit max zero n out fits h = ground arith
scan-emit max (suc k) n out fits h =
    ground (arith, scan-emit max k (n / 10) ((b'0' + n % 10) ∷ out) (omega arith) (omega arith))

-- The first character is a digit.
starts_with_digit : Text → Bool
starts_with_digit [] = false
starts_with_digit (c ∷ s) = leb b'0' c && leb c b'9'

emit-digit : (k n : ℕ) (out : Text) → starts_with_digit (emit (suc k) n out) ≡ true
unfolding starts_with_digit emit
emit-digit zero n out = ground arith
emit-digit (suc k) n out = ground (arith, emit-digit k (n / 10) ((b'0' + n % 10) ∷ out))

parse_digits :
    (max : ℕ) (s : Text) → starts_with_digit s ≡ true → parse_unsigned max s ≡ scan_digits max s 0
unfolding parse_unsigned starts_with_digit
parse_digits max [] h = cc
parse_digits max (c ∷ s) h = ground arith

-- Every number in range is read back from its decimal print.
pub parse_unsigned-to_string :
    (max n : ℕ) → n ≤ max → n < 2 ^ 64 → parse_unsigned max (to_string n) ≡ some n
unfolding to_string scan_digits
parse_unsigned-to_string max n fits h =
    parse_digits max _ (emit-digit 19 n []) ∙ scan-emit max 20 n [] fits (omega arith)

abbrev pub IsDigit : ℕ → Type 0
IsDigit c = (b'0' ≤ c) × (c ≤ b'9')

emit-IsDigit : (k n : ℕ) (out : Text) → All IsDigit out → All IsDigit (emit k n out)
unfolding emit
emit-IsDigit zero n out h = h
emit-IsDigit (suc k) n out h = elim (Bool-cases (ltb n 10)) [
  | inl e ↦ rw (e, emit) ((omega arith, omega arith), h)
  | inr e ↦ rw (e, emit) (emit-IsDigit k (n / 10) _ ((omega arith, omega arith), h))
]

pub to_string-IsDigit : (n : ℕ) → All IsDigit (to_string n)
unfolding to_string
to_string-IsDigit n = emit-IsDigit 20 n [] tt
