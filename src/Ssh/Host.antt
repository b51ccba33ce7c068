-- ===== src/Ssh/Host.antt =====
-- What `normalize_ssh_host` of src/daemon.rs accepts, and what it makes of a destination.
use tassh.Strings.{
  strip_prefix, trim, to_ascii_lowercase, strip_prefix, trim, to_ascii_lowercase, is_whitespace,
  is_ascii_alphanumeric, ascii_lower, is_empty,
}
use tassh.Strings.Trim.{
  NonePass, to_ascii_lowercase-lower, trim_matches_none, to_ascii_lowercase_none,
}
use tassh.Strings.Split.{
  Lacks, has_char-Lacks, after_last_none, after_last-append, before_first_none, before_first-append,
}
use tassh.Ssh.{is_quote, is_host_char, host_part, check_host, normalize_ssh_host}
use tassh.Prelude.{
  All-append, append-nil, ℕ, refl, true, false, Text, Bool, ◌≡◌, All, all, some, ◌==◌, arith, ◌∷◌,
  [], subst, All-mono, ==_iff, ◌++◌, none, ap, ◌∙◌,
}

-- A hostname in its normal form: not empty, of letters, digits, dots and dashes, in lower case.
pub record IsHost (h : Text) : Type 0 where
  pub nonempty : is_empty h ≡ false
  pub chars : All (λ c. is_host_char c ≡ true) h
  pub lower : All (λ c. ascii_lower c ≡ c) h

all-All : (p : ℕ → Bool) (s : Text) → all p s ≡ true → All (λ c. p c ≡ true) s
all-All p [] h = tt
all-All p (c ∷ s) h = (ground arith, all-All p s (ground arith))

All-all : (p : ℕ → Bool) (s : Text) → All (λ c. p c ≡ true) s → all p s ≡ true
All-all p [] h = refl
All-all p (c ∷ s) (hc, h) = ground (arith, All-all p s h)

check_host_same : (x h : Text) → check_host x ≡ some h → x ≡ h
unfolding check_host
check_host_same x h e = ground arith

-- What is accepted is in normal form: it is not empty, and its characters are ASCII lower-case
-- letters, digits, `.` and `-`.
pub normalize_ssh_host-IsHost : (raw h : Text) → normalize_ssh_host raw ≡ some h → IsHost h
unfolding normalize_ssh_host
normalize_ssh_host-IsHost raw h e = record {
  nonempty = ground arith;
  chars = all-All is_host_char h (ground arith);
  lower =
      subst (All (λ c. ascii_lower c ≡ c)) (check_host_same (host_part raw) h e)
        (to_ascii_lowercase-lower _);
}

-- A character of a hostname is no separator, no quote and no white space.
host_char_plain :
    (c : ℕ)
    → is_host_char c ≡ true
    → (is_quote c ≡ false)
      × (is_whitespace c ≡ false)
      × ((c == b'@') ≡ false)
      × ((c == b':') ≡ false)
      × ((c == b'/') ≡ false)
      × ((c == b'[') ≡ false)
unfolding is_ascii_alphanumeric is_whitespace
host_char_plain c h = ground arith

separators :
    (is_host_char b'@' ≡ false)
    × (is_host_char b':' ≡ false)
    × (is_host_char b'[' ≡ false)
    × (is_host_char b'/' ≡ false)
unfolding is_ascii_alphanumeric
separators = (refl, refl, refl, refl)

module _ {h : Text} (v : IsHost h) where
  without : (p : ℕ → Bool) → ((c : ℕ) → is_host_char c ≡ true → p c ≡ false) → NonePass p h
  without p f = All-mono _ _ f h v.chars

  pub Lacks-host : (c : ℕ) → is_host_char c ≡ false → Lacks c h
  Lacks-host c e = without (λ x. x == c) (λ x q. ground (arith, ==_iff x c))

  check_host-IsHost : check_host h ≡ some h
  unfolding check_host
  check_host-IsHost = ground (
    arith,
    v.nonempty,
    All-all is_host_char h v.chars,
    has_char-Lacks b'/' h (Lacks-host b'/' separators.3),
  )

  no_bracket : (t : Text) → strip_prefix b'[' (h ++ t) ≡ none
  unfolding strip_prefix
  no_bracket t = go h v.nonempty (Lacks-host b'[' separators.2)
    where
      go : (s : Text) → is_empty s ≡ false → Lacks b'[' s → strip_prefix b'[' (s ++ t) ≡ none
      go [] e l = cc
      go (c ∷ s) e (lc, l) = rw (lc, strip_prefix)

  plain_tail : to_ascii_lowercase (trim h) ≡ h
  unfolding trim
  plain_tail = rw (trim_none) (to_ascii_lowercase_none h v.lower)
    where
      trim_none : trim h ≡ h
      trim_none =
          trim_matches_none is_whitespace h (without is_whitespace (λ c q. (host_char_plain c q).1))

  plain_host : NonePass is_quote h
  plain_host = without is_quote (λ c q. (host_char_plain c q).0)

  normalize_of_part : (raw : Text) → host_part raw ≡ h → normalize_ssh_host raw ≡ some h
  unfolding normalize_ssh_host
  normalize_of_part raw e = ap check_host e ∙ check_host-IsHost

  host_part_self : host_part h ≡ h
  unfolding host_part
  host_part_self =
      rw
        (
          trim_matches_none is_quote h plain_host,
          after_last_none b'@' h (Lacks-host b'@' separators.0),
          ← append-nil h,
          no_bracket [],
          append-nil h,
          before_first_none b':' h (Lacks-host b':' separators.1),
        )
        plain_tail

  host_part-decorated :
      (user tail : Text)
      → NonePass is_quote user
      → NonePass is_quote tail
      → Lacks b'@' tail
      → host_part (user ++ b'@' ∷ (h ++ b':' ∷ tail)) ≡ h
  unfolding host_part
  host_part-decorated user tail qu qt at_free =
      let rest_plain = All-append (λ c. is_quote c ≡ false) h (b':' ∷ tail) plain_host (refl, qt) in
      rw
        (
          trim_matches_none is_quote (user ++ b'@' ∷ (h ++ b':' ∷ tail))
              (All-append _ user (b'@' ∷ (h ++ b':' ∷ tail)) qu (refl, rest_plain)),
          after_last-append b'@' user (h ++ b':' ∷ tail)
              (All-append _ h (b':' ∷ tail) (Lacks-host b'@' separators.0) (refl, at_free)),
          no_bracket (b':' ∷ tail),
          before_first-append b':' h tail (Lacks-host b':' separators.1),
        )
        plain_tail

  -- A destination `user@host:tail`, where the user and the tail hold no quotes and the tail no `@`,
  -- gives the host.
  normalize_ssh_host-decorated :
      (user tail : Text)
      → NonePass is_quote user
      → NonePass is_quote tail
      → Lacks b'@' tail
      → normalize_ssh_host (user ++ b'@' ∷ (h ++ b':' ∷ tail)) ≡ some h
  normalize_ssh_host-decorated user tail qu qt at_free =
      normalize_of_part _ (host_part-decorated user tail qu qt at_free)

  -- A hostname in normal form is its own normal form.
  pub normalize_ssh_host-IsHost_self : normalize_ssh_host h ≡ some h
  normalize_ssh_host-IsHost_self = normalize_of_part h host_part_self
