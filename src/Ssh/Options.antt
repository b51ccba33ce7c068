-- ===== src/Ssh/Options.antt =====
-- Which argument of an ssh command line `extract_ssh_destination_host` of src/daemon.rs takes.
use tassh.Strings.{starts_with_char}
use tassh.Ssh.{
  any_text, value_options, host, ssh_option_takes_value, short_option, consumes_next, scan_args,
  extract_ssh_destination_host, normalize_ssh_host, panicked,
}
use tassh.Prelude.{
  all, refl, true, false, List, text_eq, Text, [], ◌≡◌, codes, some, ◌∷◌, arith, Bool, ◌++◌,
  text_eq_iff, ◌==◌, ◌∙◌, ◌&&◌, not, ltb, text_eq_refl, ℕ, ◌≤◌,
}

-- Arguments before the destination: options, those of the list with the value behind them.
pub data AreOptions : List Text → Type 0 where
  none_left : AreOptions []
  flag :
      {arg : Text} {args : List Text}
      → starts_with_char b'-' arg ≡ true
      → text_eq arg (codes "--") ≡ false
      → ssh_option_takes_value arg ≡ false
      → (s : Text) → short_option arg ≡ some s
      → AreOptions args
      → AreOptions (arg ∷ args)
  valued :
      {arg value : Text} {args : List Text}
      → ssh_option_takes_value arg ≡ true
      → AreOptions args
      → AreOptions (arg ∷ value ∷ args)

any_text-all :
    (p : Text → Bool) (ts : List Text) (s : Text)
    → all p ts ≡ true
    → any_text ts s ≡ true
    → p s ≡ true
unfolding any_text
any_text-all p [] s h e = cc
any_text-all p (t ∷ ts) s h e = ground (arith, any_text-all p ts s, text_eq_iff t s)

-- A dash and one more character of one byte, which is no dash.
abbrev is_letter_option : Text → Bool
is_letter_option (d ∷ c ∷ []) = d == b'-' && not (c == b'-') && ltb c 128
is_letter_option _ = false

valued_letter : (arg : Text) → ssh_option_takes_value arg ≡ true → is_letter_option arg ≡ true
unfolding ssh_option_takes_value
valued_letter arg h = any_text-all is_letter_option value_options arg refl h

letter_option :
    (arg : Text)
    → is_letter_option arg ≡ true
    → (starts_with_char b'-' arg ≡ true)
      × (text_eq arg (codes "--") ≡ false)
      × (short_option arg ≡ some arg)
unfolding starts_with_char text_eq
letter_option [] h = ground arith
letter_option (d ∷ []) h = ground arith
letter_option (d ∷ c ∷ []) h = ground arith
letter_option (d ∷ c ∷ x ∷ s) h = ground arith

-- The slice of an option of two bytes is the option itself, so the second test of the source adds
-- nothing to the first.
consumes_next_lem :
    (arg s : Text) → short_option arg ≡ some s → consumes_next arg s ≡ ssh_option_takes_value arg
consumes_next_lem [] s e = ground arith
consumes_next_lem (d ∷ []) s e = ground arith
consumes_next_lem (d ∷ c ∷ []) s e = ground arith
consumes_next_lem (d ∷ c ∷ x ∷ r) s e = ground arith

scan_flag :
    (arg s : Text) (args : List Text)
    → starts_with_char b'-' arg ≡ true
    → text_eq arg (codes "--") ≡ false
    → short_option arg ≡ some s
    → scan_args false (arg ∷ args) ≡ scan_args (ssh_option_takes_value arg) args
unfolding scan_args
scan_flag arg s args dash dashes short = rw (dashes, dash, short, consumes_next_lem arg s short)

no_dashes : (dest : Text) → starts_with_char b'-' dest ≡ false → text_eq dest (codes "--") ≡ false
unfolding starts_with_char text_eq
no_dashes [] plain = refl
no_dashes (c ∷ s) plain = rw plain

scan_plain :
    (dest : Text) (command : List Text)
    → starts_with_char b'-' dest ≡ false
    → scan_args false (dest ∷ command) ≡ host (normalize_ssh_host dest)
unfolding scan_args
scan_plain dest command plain = rw (no_dashes dest plain, plain)

scan_dashes :
    (dest : Text) (command : List Text)
    → starts_with_char b'-' dest ≡ false
    → scan_args false (codes "--" ∷ dest ∷ command) ≡ host (normalize_ssh_host dest)
unfolding scan_args
scan_dashes dest command plain = rw (text_eq_refl (codes "--"), plain)

scan_value :
    (value : Text) (args : List Text) → scan_args true (value ∷ args) ≡ scan_args false args
unfolding scan_args
scan_value value args = refl

-- Options are passed over, whatever comes behind them.
scan_options :
    {options : List Text} (args : List Text)
    → AreOptions options
    → scan_args false (options ++ args) ≡ scan_args false args
scan_options args none_left = refl
scan_options args (flag {arg} {args = more} dash dashes novalue s short rest) =
    scan_flag arg s (more ++ args) dash dashes short ∙ rw novalue (scan_options args rest)
scan_options args (valued {arg} {value} {args = more} takes rest) =
    let (dash, dashes, short) = letter_option arg (valued_letter arg takes) in
    scan_flag arg arg (value ∷ (more ++ args)) dash dashes short
    ∙ rw takes (scan_value value (more ++ args) ∙ scan_options args rest)

-- Behind options that are well formed, the argument that does not start with a dash is the
-- destination, and what follows it is not looked at. After `--` the same holds.
pub extract_ssh_destination_host_lem :
    {options : List Text} (dest : Text) (command : List Text)
    → AreOptions options
    → starts_with_char b'-' dest ≡ false
    → (extract_ssh_destination_host (options ++ dest ∷ command) ≡ host (normalize_ssh_host dest))
      × (extract_ssh_destination_host (options ++ codes "--" ∷ dest ∷ command)
          ≡ host (normalize_ssh_host dest))
unfolding extract_ssh_destination_host
extract_ssh_destination_host_lem dest command o plain = (
  scan_options (dest ∷ command) o ∙ scan_plain dest command plain,
  scan_options (codes "--" ∷ dest ∷ command) o ∙ scan_dashes dest command plain,
)

-- A dash and a character that is not ASCII, behind options that are well formed, makes the slice
-- `&arg[..2]` end inside that character: the discovery panics.
extract_ssh_destination_host_panics :
    {options : List Text} (c : ℕ) (s : Text) (rest : List Text)
    → AreOptions options
    → 128 ≤ c
    → extract_ssh_destination_host (options ++ (b'-' ∷ c ∷ s) ∷ rest) ≡ panicked
unfolding extract_ssh_destination_host scan_args starts_with_char text_eq
extract_ssh_destination_host_panics c s rest o wide =
    scan_options ((b'-' ∷ c ∷ s) ∷ rest) o ∙ ground arith
