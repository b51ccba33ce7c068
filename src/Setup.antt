-- ===== src/Setup.antt =====
-- src/setup.rs: the hooks in the shell profiles and in the ssh configuration.
-- A file is its text, `none` if it is missing. What the system does with a file, and the answer on
-- the terminal, are arguments. Every appended character is ASCII, so that a cut write is a cut text.
pub mod Hooks
pub mod Service
pub mod Repeat
pub mod Concurrent
pub mod Once
mod Examples
use tassh.Strings.{is_empty, trim, to_ascii_lowercase}
use tassh.Strings.Search.{contains_text, ends_with_char}
use tassh.Prelude.{
  ℕ, Bool, Text, Result, Option, List, take, ok, [], codes, ◌++◌, if◌then◌else◌, ◌∷◌, ◌||◌, false,
  err, not, text_eq, is_some, true, some, ◌&&◌, none,
}

pub data SetupError : Type 0 where
  open_failed lock_failed read_failed write_failed : SetupError

-- The outcome of a write: all of it, or an error after some characters.
pub data Written : Type 0 where
  complete : Written
  cut : ℕ → Written

-- What the system does with one file.
pub record Access : Type 0 where
  pub opened : Bool
  pub locked : Bool
  pub readable : Bool
  pub written : Written

abbrev pub written_text : Written → Text → Text
written_text complete s = s
written_text (cut n) s = take n s

abbrev pub write_outcome : {A : Type 0} → A → Written → Result SetupError A
write_outcome a complete = ok a
write_outcome a (cut n) = err write_failed

abbrev pub or_empty : Option Text → Text
or_empty none = []
or_empty (some s) = s

unfoldable pub marker : Text
marker = codes "# tassh: auto-export DISPLAY in SSH sessions"

unfoldable pub snippet_body : Text
snippet_body =
    codes
      "\nif [ -n \"$SSH_CONNECTION\" ] && [ -f \"$HOME/.tassh/display\" ]; then\n    . \"$HOME/.tassh/display\"\nfi\n"

unfoldable pub shell_snippet : Text
shell_snippet = marker ++ snippet_body

-- The last line of a profile is ended if it is not.
abbrev pub end_of_line : Text → Text
end_of_line content =
    if not (is_empty content) && not (ends_with_char 10 content) then 10 ∷ [] else []

-- What is appended to a profile: the snippet, behind an empty line.
unfoldable pub to_append : Text → Text
unfolding shell_snippet
to_append content = end_of_line content ++ 10 ∷ shell_snippet

unfoldable pub ensure_shell_snippet : Access → Option Text → Option Text × Result SetupError Bool
ensure_shell_snippet a file =
    let content = or_empty file in
    if not a.opened
    then (file, err open_failed)
    else if not a.locked
    then (some content, err lock_failed)
    else if not a.readable
    then (some content, err read_failed)
    else if contains_text marker content
    then (some content, ok false)
    else (
      some (content ++ written_text a.written (to_append content)),
      write_outcome true a.written,
    )

-- The profiles in order; an error is a warning, and the others go on.
unfoldable pub install_shell_snippets : List (Access × Option Text) → List (Option Text)
unfolding ensure_shell_snippet
install_shell_snippets [] = []
install_shell_snippets ((a, file) ∷ files) =
    (ensure_shell_snippet a file).0 ∷ install_shell_snippets files

abbrev pub Answer : Type 0
Answer = Bool × Option Text

-- Outside ASCII no character has a lower case among the letters of the answers.
abbrev decide : Text → Bool → Bool
decide s default_yes =
    if text_eq s (codes "y") || text_eq s (codes "yes")
    then true
    else if text_eq s (codes "n") || text_eq s (codes "no")
    then false
    else default_yes

-- Whether standard input is a terminal, and the line that was read, if it could be.
unfoldable pub prompt_yes_no : Answer → Bool → Bool
unfolding trim
prompt_yes_no (is_terminal, line) default_yes = if not is_terminal then false else elim line [
  | none ↦ default_yes
  | some input ↦ decide (to_ascii_lowercase (trim input)) default_yes
]

unfoldable pub stanza_mark : Text
stanza_mark = codes "# tassh:"

unfoldable pub stanza_body : Text
stanza_body =
    codes
      " notify daemon of SSH connections\nHost *\n    PermitLocalCommand yes\n    LocalCommand tassh notify --host %h --port %p --ssh-pid $PPID\n"

unfoldable pub ssh_config_stanza : Text
ssh_config_stanza = (10 ∷ []) ++ stanza_mark ++ stanza_body

-- The file is appended to, with a line break of `writeln!`, or created.
unfoldable pub add_stanza : Access → Option Text → Option Text × Result SetupError (Unit {0})
unfolding ssh_config_stanza
add_stanza a file = if not a.opened then (file, err open_failed) else elim file [
  | none ↦ (some (written_text a.written ssh_config_stanza), write_outcome tt a.written)
  | some content ↦ (
    some (content ++ written_text a.written (ssh_config_stanza ++ 10 ∷ [])),
    write_outcome tt a.written,
  )
]

-- Whether a configuration is left as it is: it has the stanza, or another LocalCommand.
unfoldable pub has_local_command : Text → Bool
has_local_command content =
    contains_text stanza_mark content || contains_text (codes "LocalCommand") content

abbrev pub is_kept : Option Text → Bool
is_kept none = false
is_kept (some content) = has_local_command content

unfoldable pub setup_ssh_config :
    Bool → Answer → Access → Option Text → Option Text × Result SetupError (Unit {0})
unfolding add_stanza prompt_yes_no
setup_ssh_config assume_yes answer a file =
    if is_some file && not a.readable
    then (file, err read_failed)
    else if is_kept file
    then (file, ok tt)
    else if assume_yes || prompt_yes_no answer true
    then add_stanza a file
    else (file, ok tt)

abbrev files_of : List (Access × Option Text) → List (Option Text)
files_of [] = []
files_of ((a, file) ∷ files) = file ∷ files_of files

unfoldable pub setup_shell_snippets :
    Bool → Answer → List (Access × Option Text) → List (Option Text)
unfolding install_shell_snippets prompt_yes_no
setup_shell_snippets assume_yes answer files =
    if assume_yes || prompt_yes_no answer true then install_shell_snippets files else files_of files
