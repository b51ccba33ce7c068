-- ===== src/Paths.antt =====
-- The paths below the home directory: `socket_path` and the directory of `run_daemon` in src/daemon.rs,
-- `display_file_path` in src/display.rs, `home_dir`, `binary_path` and `unit_dir` in src/setup.rs.
-- A path is its text, and $HOME is `none` if it is not set to a text.
pub mod Same
mod Examples
use tassh.Strings.{is_empty}
use tassh.Strings.Search.{ends_with_char}
use tassh.Prelude.{ℕ, Text, Option, some, none, codes, ◌++◌, ◌||◌, if◌then◌else◌, [], ◌∷◌, ◌==◌}

abbrev pub slash : ℕ
slash = 47

-- base.join(rest), where `rest` is relative: a slash is put between them unless there is one, or
-- nothing before it.
unfoldable pub join : Text → Text → Text
join base rest =
    if is_empty base || ends_with_char slash base then base ++ rest else base ++ slash ∷ rest

-- path.parent(), where the last two components are names: the text before the last slash.
unfoldable pub before_slash : Text → Option Text
before_slash [] = none
before_slash (c ∷ s) =
    let rest = before_slash s in
    elim rest [ some t ↦ some (c ∷ t) | none ↦ if c == slash then some [] else none ]

abbrev pub home_or : Text → Option Text → Text
home_or default none = default
home_or default (some home) = home

unfoldable pub socket_path : Option Text → Text
unfolding join
socket_path home = join (home_or (codes "/tmp") home) (codes ".tassh/daemon.sock")

-- The directory that `run_daemon` creates, and the file that it removes there.
unfoldable pub daemon_dir : Option Text → Option Text
unfolding before_slash socket_path
daemon_dir home = before_slash (socket_path home)

unfoldable pub dropped_display : Option Text → Option Text
unfolding daemon_dir
dropped_display home = elim (daemon_dir home) [
  | none ↦ none
  | some parent ↦ some (join parent (codes "display"))
]

unfoldable pub display_file_path : Option Text → Text
unfolding join
display_file_path home =
    join (join (home_or (codes "/root") home) (codes ".tassh")) (codes "display")

unfoldable pub home_dir : Option Text → Text
home_dir home = home_or (codes "/root") home

unfoldable pub binary_path : Option Text → Text
unfolding join
binary_path home = join (home_dir home) (codes ".cargo/bin/tassh")

unfoldable pub unit_dir : Option Text → Text
unfolding join
unit_dir home = join (home_dir home) (codes ".config/systemd/user")
