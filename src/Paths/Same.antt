-- ===== src/Paths/Same.antt =====
-- Where the daemon and its display module look for the published display.
use tassh.Paths.{
  slash, join, before_slash, socket_path, daemon_dir, dropped_display, display_file_path,
}
use tassh.Strings.{is_empty}
use tassh.Strings.Search.{ends_with_char}
use tassh.Strings.Split.{Lacks}
use tassh.Prelude.{
  append_assoc, Bool-cases, inl, inr, ◌||◌, ◌≢◌, Text, Option, some, none, codes, ◌++◌, ◌≡◌, ◌↔◌,
  refl, arith, [], ◌∷◌, is_some, true, ◌∙◌, ap, sym, ℕ,
}

before_slash-none : (t : Text) → Lacks slash t → before_slash t ≡ none
unfolding before_slash
before_slash-none [] h = refl
before_slash-none (c ∷ t) (e, h) = ground (arith, before_slash-none t h)

-- The text before the last slash.
before_slash-append : (s t : Text) → Lacks slash t → before_slash (s ++ slash ∷ t) ≡ some s
unfolding before_slash
before_slash-append [] t h = ground (arith, before_slash-none t h)
before_slash-append (c ∷ s) t h = ground (arith, before_slash-append s t h)

-- The directory of a socket below a text.
before_slash-socket :
    (s : Text) → before_slash (s ++ codes ".tassh/daemon.sock") ≡ some (s ++ codes ".tassh")
before_slash-socket s =
    ap before_slash (sym (append_assoc s (codes ".tassh") (codes "/daemon.sock")))
    ∙ before_slash-append (s ++ codes ".tassh") (codes "daemon.sock") (ground arith)

daemon_dir-join :
    (base : Text)
    → before_slash (join base (codes ".tassh/daemon.sock")) ≡ some (join base (codes ".tassh"))
unfolding join
daemon_dir-join base =
    let below =
      ap before_slash (sym (append_assoc base (slash ∷ []) (codes ".tassh/daemon.sock")))
      ∙ before_slash-socket (base ++ slash ∷ [])
      ∙ ap some (append_assoc base (slash ∷ []) (codes ".tassh")) in
    elim (Bool-cases (is_empty base || ends_with_char slash base)) [
      | inl q ↦ ground (arith, q, before_slash-socket base)
      | inr q ↦ ground (arith, q, below)
    ]

-- The second character.
abbrev second : Option Text → ℕ
second (some (a ∷ b ∷ s)) = b
second _ = 0

default_dirs_differ : dropped_display none ≢ some (display_file_path none)
unfolding dropped_display daemon_dir socket_path display_file_path join before_slash ends_with_char
default_dirs_differ e = let q : ◌≡◌ {A = ℕ} 116 114 = ap second e in absurd (omega arith)

-- The display file that a starting daemon removes is the one that its display module writes and a
-- shutdown removes, exactly if $HOME is set: without it the one is below /tmp and the other below /root.
dropped_display-display_file_path :
    (home : Option Text)
    → (dropped_display home ≡ some (display_file_path home)) ↔ (is_some home ≡ true)
unfolding dropped_display daemon_dir socket_path display_file_path join before_slash
dropped_display-display_file_path none = (λ e. absurd (default_dirs_differ e), λ e. absurd (cc e))
dropped_display-display_file_path (some h) = (λ e. refl, λ e. ground (arith, daemon_dir-join h))
