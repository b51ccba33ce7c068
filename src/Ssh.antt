-- ===== src/Ssh.antt =====
-- src/daemon.rs: the destination host in the command line of a running ssh process.
pub mod Host
pub mod Options
mod Examples
use tassh.Strings.{
  is_whitespace, trim_matches, after_last, strip_prefix, strip_suffix, before_first, trim,
  to_ascii_lowercase, has_char, is_empty, is_ascii_alphanumeric, drop_end_while, starts_with_char,
}
use tassh.Prelude.{
  ℕ, refl, true, false, Text, List, Bool, Option, codes, text_eq, ◌∷◌, ◌==◌, ◌||◌, if◌then◌else◌,
  none, ◌≡◌, some, [], all, ltb, ◌&&◌, not, leb, and_then,
}

-- The program of a command line is ssh itself.
unfoldable pub is_ssh_client_command : Text → Bool
unfolding after_last
is_ssh_client_command cmd = text_eq (after_last b'/' cmd) (codes "ssh")

unfoldable pub any_text : List Text → Text → Bool
any_text [] s = false
any_text (t ∷ ts) s = text_eq t s || any_text ts s

abbrev value_options : List Text
value_options =
    codes "-b"
    ∷ codes "-c"
    ∷ codes "-D"
    ∷ codes "-E"
    ∷ codes "-e"
    ∷ codes "-F"
    ∷ codes "-I"
    ∷ codes "-i"
    ∷ codes "-J"
    ∷ codes "-L"
    ∷ codes "-l"
    ∷ codes "-m"
    ∷ codes "-O"
    ∷ codes "-o"
    ∷ codes "-p"
    ∷ codes "-Q"
    ∷ codes "-R"
    ∷ codes "-S"
    ∷ codes "-W"
    ∷ codes "-w"
    ∷ []

unfoldable pub ssh_option_takes_value : Text → Bool
unfolding any_text
ssh_option_takes_value arg = any_text value_options arg

abbrev pub is_quote : ℕ → Bool
is_quote c = c == 39 || c == 34

abbrev or_self : Text → Option Text → Text
or_self s none = s
or_self s (some r) = r

abbrev pub is_host_char : ℕ → Bool
is_host_char c = is_ascii_alphanumeric c || c == b'.' || c == b'-'

-- The host after quotes, user, brackets and port are cut off.
unfoldable pub host_part : Text → Text
host_part raw =
    let unquoted = trim_matches is_quote raw in
    let without_user = after_last b'@' unquoted in
    let without_brackets =
      or_self without_user (and_then (strip_prefix b'[' without_user) (strip_suffix b']')) in
    to_ascii_lowercase (trim (before_first b':' without_brackets))

-- What is no hostname is refused.
unfoldable pub check_host : Text → Option Text
unfolding has_char is_ascii_alphanumeric
check_host host =
    if is_empty host || has_char b'/' host
    then none
    else if all is_host_char host
    then some host
    else none

unfoldable pub normalize_ssh_host : Text → Option Text
unfolding host_part check_host
normalize_ssh_host raw = check_host (host_part raw)

-- The host of a peer from its name in reverse DNS.
unfoldable pub normalize_peer_hostname : Text → Text
unfolding normalize_ssh_host
normalize_peer_hostname raw =
    let trimmed = drop_end_while (λ c. c == b'.') (trim raw) in
    elim (normalize_ssh_host trimmed) [ none ↦ to_ascii_lowercase trimmed | some h ↦ h ]

-- The outcome of `extract_ssh_destination_host`: a slice at a byte index inside a character panics.
pub data Extracted : Type 0 where
  panicked : Extracted
  host : Option Text → Extracted

-- `&arg[..arg.len().min(2)]` on an argument that starts with a dash, in UTF-8: the index 2 is a
-- character boundary unless the second character takes more than one byte.
abbrev pub short_option : Text → Option Text
short_option (d ∷ c ∷ s) = if ltb c 128 then some (d ∷ c ∷ []) else none
short_option s = some s

-- `arg.len() == 2`, in bytes.
abbrev pub is_two_bytes : Text → Bool
is_two_bytes (d ∷ c ∷ []) = ltb d 128 && ltb c 128
is_two_bytes (d ∷ []) = leb 128 d && ltb d 2048
is_two_bytes s = false

abbrev pub consumes_next : Text → Text → Bool
consumes_next arg short =
    ssh_option_takes_value arg || (is_two_bytes arg && ssh_option_takes_value short)

-- The loop after `--`.
after_dashes : List Text → Option Text
unfolding normalize_ssh_host starts_with_char
after_dashes [] = none
after_dashes (arg ∷ args) =
    let rest = after_dashes args in
    if not (starts_with_char b'-' arg) then normalize_ssh_host arg else rest

-- The loop over the options; the flag says that the argument is the value of the option before it.
unfoldable pub scan_args : Bool → List Text → Extracted
unfolding ssh_option_takes_value after_dashes
scan_args skip [] = host none
scan_args true (arg ∷ args) = scan_args false args
scan_args false (arg ∷ args) =
    let next : Extracted = elim (short_option arg) [
      | none ↦ panicked
      | some short ↦ scan_args (consumes_next arg short) args
    ] in
    if text_eq arg (codes "--")
    then host (after_dashes args)
    else if starts_with_char b'-' arg
    then next
    else host (normalize_ssh_host arg)

unfoldable pub extract_ssh_destination_host : List Text → Extracted
unfolding scan_args
extract_ssh_destination_host args = scan_args false args
