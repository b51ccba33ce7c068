-- ===== src/Paths/Examples.antt =====
-- The paths with and without $HOME.
use tassh.Paths.{
  join, before_slash, dropped_display, display_file_path, binary_path, unit_dir, home_dir,
}
use tassh.Strings.Search.{ends_with_char}
use tassh.Prelude.{some, none, codes, ◌≡◌, refl}

with_home : display_file_path (some (codes "/home/ann/")) ≡ codes "/home/ann/.tassh/display"
unfolding display_file_path join ends_with_char
with_home = refl

without_home : dropped_display none ≡ some (codes "/tmp/.tassh/display")
unfolding dropped_display join before_slash ends_with_char
without_home = refl

setup_paths :
    (binary_path none ≡ codes "/root/.cargo/bin/tassh")
    × (unit_dir (some (codes "/home/ann")) ≡ codes "/home/ann/.config/systemd/user")
unfolding binary_path unit_dir home_dir join ends_with_char
setup_paths = (refl, refl)
