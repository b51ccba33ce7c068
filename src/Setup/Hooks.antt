-- ===== src/Setup/Hooks.antt =====
-- src/setup.rs: running the setup again changes nothing, and what the user wrote is kept.
use tassh.Strings.Search.{contains_text, contains_text-append}
use tassh.Setup.{
  Access, Written, Answer, complete, cut, marker, snippet_body, shell_snippet, or_empty, to_append,
  ensure_shell_snippet, prompt_yes_no, setup_ssh_config, add_stanza, setup_shell_snippets,
  stanza_mark, stanza_body, ssh_config_stanza, has_local_command, files_of, written_text, is_kept,
  end_of_line,
}
use tassh.Prelude.{
  ℕ, Text, Option, Bool, ◌++◌, ◌≡◌, ◌||◌, List, true, ok, false, ◌∷◌, arith, append_assoc, [], ◌∙◌,
  ap, sym, append-nil, if◌then◌else◌, not, is_some, refl, ◌&&◌, some, none, ◌⊎◌, codes, inl, inr,
}

-- A text is found behind two others and a character.
contains_text_behind :
    (before more : Text) (c : ℕ) (needle after : Text)
    → contains_text needle (before ++ (more ++ (c ∷ (needle ++ after)))) ≡ true
contains_text_behind before more c needle after =
    let e =
      append_assoc before (more ++ c ∷ []) (needle ++ after)
      ∙ ap (λ s. before ++ s) (append_assoc more (c ∷ []) (needle ++ after)) in
    ap (contains_text needle) (sym e)
    ∙ contains_text-append (before ++ (more ++ c ∷ [])) needle after

-- The text is kept, and something may stand behind it.
abbrev pub Extends : Text → Text → Type 0
Extends s t = (added : Text) × (t ≡ s ++ added)

Extends-self : (s : Text) → Extends s s
Extends-self s = ([], sym (append-nil s))

Extends-if :
    {R : Type 0} (s : Text) (b : Bool) (x y : Option Text × R)
    → Extends s (or_empty x.0)
    → Extends s (or_empty y.0)
    → Extends s (or_empty (if b then x else y).0)
Extends-if s true x y hx hy = hx
Extends-if s false x y hx hy = hy

-- The snippet is found in a profile to which it was appended.
pub marker_appended : (content : Text) → contains_text marker (content ++ to_append content) ≡ true
unfolding to_append shell_snippet
marker_appended content = contains_text_behind content (end_of_line content) 10 marker snippet_body

-- A profile on which a run reported success has the hook: a second run that can read it reports that
-- nothing was to be done, and leaves it as it is.
pub ensure_shell_snippet_twice :
    (a b : Access) (file : Option Text) (changed : Bool)
    → (ensure_shell_snippet a file).1 ≡ ok changed
    → b.opened ≡ true
    → b.locked ≡ true
    → b.readable ≡ true
    → ensure_shell_snippet b (ensure_shell_snippet a file).0
      ≡ ((ensure_shell_snippet a file).0, ok false)
unfolding ensure_shell_snippet
ensure_shell_snippet_twice a b file changed h o l r =
    ground (arith, marker_appended (or_empty file))

-- Whatever the system does, also when a write is cut, a run keeps the text of a profile and at most
-- adds text behind it.
pub ensure_shell_snippet_keeps :
    (a : Access) (file : Option Text)
    → Extends (or_empty file) (or_empty (ensure_shell_snippet a file).0)
unfolding ensure_shell_snippet
ensure_shell_snippet_keeps a file =
    let s = or_empty file in
    Extends-if s (not a.opened) _ _ (Extends-self s) (
      Extends-if s (not a.locked) _ _ (Extends-self s) (
        Extends-if s (not a.readable) _ _ (Extends-self s) (
          Extends-if s (contains_text marker s) _ _ (Extends-self s)
            (written_text a.written (to_append s), refl))))

add_stanza-Extends :
    (a : Access) (file : Option Text) → Extends (or_empty file) (or_empty (add_stanza a file).0)
unfolding add_stanza
add_stanza-Extends a none =
    Extends-if [] (not a.opened) _ _ (Extends-self [])
      (written_text a.written ssh_config_stanza, refl)
add_stanza-Extends a (some content) =
    Extends-if content (not a.opened) _ _ (Extends-self content)
      (written_text a.written (ssh_config_stanza ++ 10 ∷ []), refl)

Written-cases : (w : Written) → (w ≡ complete) ⊎ ((n : ℕ) × (w ≡ cut n))
Written-cases complete = inl refl
Written-cases (cut n) = inr (n, refl)

-- The stanza is found where it was appended, with what `writeln!` adds behind it.
stanza_appended :
    (content more : Text) → has_local_command (content ++ (ssh_config_stanza ++ more)) ≡ true
unfolding has_local_command ssh_config_stanza
stanza_appended content more =
    let e = append_assoc (10 ∷ stanza_mark) stanza_body more in
    ap
      (λ s.
        contains_text stanza_mark (content ++ s)
        || contains_text (codes "LocalCommand") (content ++ s))
      e
    ∙ rw (contains_text_behind content [] 10 stanza_mark (stanza_body ++ more)) refl

-- A stanza that was added without an error is found.
add_stanza-has_local_command :
    (a : Access) (file new : Option Text) → add_stanza a file ≡ (new, ok tt) → is_kept new ≡ true
unfolding add_stanza
add_stanza-has_local_command a none new h =
    ground (arith, Written-cases a.written, stanza_appended [] [], append-nil ssh_config_stanza)
add_stanza-has_local_command a (some content) new h =
    ground (arith, Written-cases a.written, stanza_appended content (10 ∷ []))

-- Once the user has agreed and a run has reported success, the next run that can read the ssh
-- configuration leaves it as it is, whatever the user answers then.
pub setup_ssh_config_twice :
    (assume_yes again : Bool) (answer next : Answer) (a b : Access) (file new : Option Text)
    → (assume_yes || prompt_yes_no answer true) ≡ true
    → setup_ssh_config assume_yes answer a file ≡ (new, ok tt)
    → b.readable ≡ true
    → setup_ssh_config again next b new ≡ (new, ok tt)
unfolding setup_ssh_config
setup_ssh_config_twice assume_yes again answer next a b file new agreed h r =
    ground (arith, add_stanza-has_local_command a file new)

-- Whatever the system does and the user answers, a run keeps the text of the ssh configuration and at
-- most adds text behind it.
pub setup_ssh_config_keeps :
    (assume_yes : Bool) (answer : Answer) (a : Access) (file : Option Text)
    → (added : Text) × (or_empty (setup_ssh_config assume_yes answer a file).0
        ≡ or_empty file ++ added)
unfolding setup_ssh_config
setup_ssh_config_keeps assume_yes answer a file =
    let s = or_empty file in
    Extends-if s (is_some file && not a.readable) _ _ (Extends-self s) (
      Extends-if s (is_kept file) _ _ (Extends-self s) (
        Extends-if s (assume_yes || prompt_yes_no answer true) _ _ (add_stanza-Extends a file)
          (Extends-self s)))

-- Without `--yes` and without a terminal, neither the ssh configuration nor a profile is changed.
pub setup_without_terminal :
    (line : Option Text) (a : Access) (file : Option Text) (files : List (Access × Option Text))
    → ((setup_ssh_config false (false, line) a file).0 ≡ file)
      × (setup_shell_snippets false (false, line) files ≡ files_of files)
unfolding setup_ssh_config setup_shell_snippets prompt_yes_no
setup_without_terminal line a file files = (ground arith, refl)
