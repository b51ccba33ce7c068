-- ===== src/Discovery/Ascii.antt =====
-- The slices of `extract_ssh_destination_host` in src/daemon.rs are safe on ASCII.
use tassh.Strings.{starts_with_char, is_whitespace}
use tassh.Strings.Words.{lines, words_from, split_whitespace, push_word, cons_first}
use tassh.Ssh.{
  Extracted, panicked, host, scan_args, short_option, extract_ssh_destination_host, consumes_next,
}
use tassh.Discovery.{
  broken, read_line, read_parts, group_lines, discover_existing_ssh_sessions, of_extracted, Event,
  parse_unsigned, host_events, u32_max, add_session,
}
use tassh.Discovery.Grouping.{Line-cases}
use tassh.Prelude.{
  ℕ, Text, List, Bool, All, ◌<◌, ◌≡◌, ◌≢◌, some, Bool-cases, [], false, ◌==◌, arith, inl, true,
  refl, inr, ◌&&◌, Option-cases, HashMap, none, ap, map_option, ◌∷◌,
}

abbrev pub IsAscii : Text → Type 0
IsAscii = All (λ c. c < 128)

cons_first-IsAscii :
    (c : ℕ) (ls : List Text) → c < 128 → All IsAscii ls → All IsAscii (cons_first c ls)
cons_first-IsAscii c [] h hs = ((h, tt), tt)
cons_first-IsAscii c (l ∷ ls) h (hl, hs) = ((h, hl), hs)

lines-IsAscii : (s : Text) → IsAscii s → All IsAscii (lines s)
unfolding lines
lines-IsAscii [] h = tt
lines-IsAscii (c ∷ s) (hc, h) = elim (Bool-cases (c == 10)) [
  | inl e ↦ rw (e, lines) (tt, lines-IsAscii s h)
  | inr e ↦ elim (Bool-cases (c == 13 && starts_with_char 10 s)) [
    | inl f ↦ rw (e, f, lines) (lines-IsAscii s h)
    | inr f ↦ rw (e, f, lines) (cons_first-IsAscii c (lines s) hc (lines-IsAscii s h))
  ]
]

push_word-IsAscii :
    (w : Text) (ws : List Text) → IsAscii w → All IsAscii ws → All IsAscii (push_word w ws)
push_word-IsAscii [] ws h hs = hs
push_word-IsAscii (c ∷ w) ws h hs = (h, hs)

words_from-IsAscii :
    (s : Text) → IsAscii s → IsAscii (words_from s).0 × All IsAscii (words_from s).1
unfolding words_from
words_from-IsAscii [] h = (tt, tt)
words_from-IsAscii (c ∷ s) (hc, h) =
    let (hw, hws) = words_from-IsAscii s h in
    elim (Bool-cases (is_whitespace c)) [
      | inl e ↦ rw (e, words_from) (tt, push_word-IsAscii _ _ hw hws)
      | inr e ↦ rw (e, words_from) ((hc, hw), hws)
    ]

short_option-IsAscii : (arg : Text) → IsAscii arg → (s : Text) × (short_option arg ≡ some s)
short_option-IsAscii [] h = ([], refl)
short_option-IsAscii (d ∷ []) h = (d ∷ [], refl)
short_option-IsAscii (d ∷ c ∷ s) (hd, (hc, h)) = (d ∷ c ∷ [], ground arith)

scan_args-IsAscii :
    (skip : Bool) (args : List Text) → All IsAscii args → scan_args skip args ≢ panicked
unfolding scan_args
scan_args-IsAscii skip [] h = λ e. cc
scan_args-IsAscii true (arg ∷ args) (ha, h) = scan_args-IsAscii false args h
scan_args-IsAscii false (arg ∷ args) (ha, h) =
    let (s, e) = short_option-IsAscii arg ha in
    ground (arith, e, scan_args-IsAscii (consumes_next arg s) args h)

of_extracted-ne-broken :
    (self_aliases : List Text) (pid : ℕ) (x : Extracted)
    → x ≢ panicked
    → of_extracted self_aliases pid x ≢ broken
of_extracted-ne-broken self_aliases pid panicked h = λ e. h refl
of_extracted-ne-broken self_aliases pid (host none) h = λ e. cc
of_extracted-ne-broken self_aliases pid (host (some x)) h = ground arith

read_parts-IsAscii :
    (self_aliases parts : List Text) → All IsAscii parts → read_parts self_aliases parts ≢ broken
unfolding read_parts extract_ssh_destination_host
read_parts-IsAscii self_aliases [] h = λ e. cc
read_parts-IsAscii self_aliases (a ∷ []) h = λ e. cc
read_parts-IsAscii self_aliases (a ∷ b ∷ []) h = λ e. cc
read_parts-IsAscii self_aliases (word ∷ program ∷ arg ∷ args) (hw, (hp, h)) =
    elim (Option-cases (parse_unsigned u32_max word)) [
      | inl q ↦ ground arith
      | inr (n, q) ↦ ground (
        arith,
        of_extracted-ne-broken self_aliases n (extract_ssh_destination_host (arg ∷ args))
            (scan_args-IsAscii false (arg ∷ args) h),
      )
    ]

read_line-IsAscii :
    (self_aliases : List Text) (line : Text) → IsAscii line → read_line self_aliases line ≢ broken
unfolding read_line split_whitespace
read_line-IsAscii self_aliases line h =
    let (hw, hws) = words_from-IsAscii line h in
    read_parts-IsAscii self_aliases _
      (push_word-IsAscii (words_from line).0 (words_from line).1 hw hws)

group_lines-IsAscii :
    (self_aliases ls : List Text) (m : HashMap (List ℕ))
    → All IsAscii ls
    → (last : HashMap (List ℕ)) × (group_lines self_aliases ls m ≡ some last)
unfolding group_lines
group_lines-IsAscii self_aliases [] m h = (m, refl)
group_lines-IsAscii self_aliases (line ∷ rest) m (hl, h) =
    elim (Line-cases (read_line self_aliases line)) [
      | inl q ↦ let (last, e) = group_lines-IsAscii self_aliases rest m h in (last, ground arith)
      | inr (inl q) ↦ absurd (read_line-IsAscii self_aliases line hl q)
      | inr (inr (j, pid, q)) ↦
          let (last, e) = group_lines-IsAscii self_aliases rest (add_session j pid m) h in
          (last, ground arith)
    ]

-- On an output of pgrep in ASCII the discovery does not panic: it ends with the hosts to probe.
pub discovery_completes :
    (self_aliases : List Text) (stdout : Text)
    → IsAscii stdout
    → (es : List Event) × (discover_existing_ssh_sessions self_aliases (some stdout) ≡ some es)
unfolding discover_existing_ssh_sessions
discovery_completes self_aliases stdout h =
    let (m, e) = group_lines-IsAscii self_aliases (lines stdout) [] (lines-IsAscii stdout h) in
    (host_events m, ap (map_option host_events) e)
