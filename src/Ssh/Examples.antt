-- ===== src/Ssh/Examples.antt =====
-- Tests of the host extraction of src/daemon.rs, and its theorems at concrete inputs.
use tassh.Strings.{
  is_ascii_alphanumeric, ascii_lower, starts_with_char, trim_matches, after_last, strip_prefix,
  strip_suffix, before_first, trim, to_ascii_lowercase,
}
use tassh.Ssh.Host.{IsHost}
use tassh.Ssh.Options.{AreOptions, flag, valued, none_left, extract_ssh_destination_host_lem}
use tassh.Ssh.{ssh_option_takes_value, normalize_ssh_host, extract_ssh_destination_host, host}
use tassh.Prelude.{refl, text_eq, codes, ◌≡◌, some, none, ◌∷◌, [], Text, arith}

tests :
    (normalize_ssh_host (codes "'bob@Box.Example.org:22'") ≡ some (codes "box.example.org"))
    × (normalize_ssh_host (codes "a/b") ≡ none)
    × (extract_ssh_destination_host (codes "-p" ∷ codes "22" ∷ codes "-v" ∷ codes "me@host" ∷ [])
        ≡ host (some (codes "host")))
    × (extract_ssh_destination_host (codes "-v" ∷ codes "--" ∷ codes "h" ∷ codes "ls" ∷ [])
        ≡ host (some (codes "h")))
unfolding normalize_ssh_host extract_ssh_destination_host text_eq trim_matches after_last
    strip_prefix strip_suffix before_first trim to_ascii_lowercase
tests = (refl, refl, refl, refl)

abbrev box : Text
box = codes "box-1.example"

box-IsHost : IsHost box
unfolding is_ascii_alphanumeric ascii_lower
box-IsHost = record { nonempty = refl; chars = ground arith; lower = ground arith }

normalized_upper : normalize_ssh_host (codes "BOX") ≡ some (codes "box")
unfolding normalize_ssh_host trim_matches after_last strip_prefix strip_suffix before_first trim
    to_ascii_lowercase
normalized_upper = refl

-- `-p 22 -v`
port_and_flag : AreOptions (codes "-p" ∷ codes "22" ∷ codes "-v" ∷ [])
unfolding ssh_option_takes_value starts_with_char text_eq
port_and_flag = valued refl (flag refl refl refl (codes "-v") refl none_left)

extract_example :
    (extract_ssh_destination_host (codes "-p" ∷ codes "22" ∷ codes "-v" ∷ box ∷ codes "ls" ∷ [])
      ≡ host (normalize_ssh_host box))
    × (extract_ssh_destination_host
          (codes "-p" ∷ codes "22" ∷ codes "-v" ∷ codes "--" ∷ box ∷ codes "ls" ∷ [])
        ≡ host (normalize_ssh_host box))
unfolding starts_with_char
extract_example = extract_ssh_destination_host_lem box (codes "ls" ∷ []) port_and_flag refl
