-- ===== src/Setup/Repeat.antt =====
-- The setup of src/setup.rs, run once more.
use tassh.Strings.Search.{contains_text}
use tassh.Setup.{
  marker, or_empty, files_of, Access, Answer, complete, ensure_shell_snippet,
  install_shell_snippets, prompt_yes_no, setup_shell_snippets, setup_ssh_config,
}
use tassh.Setup.Hooks.{ensure_shell_snippet_twice, setup_ssh_config_twice}
use tassh.Setup.Service.{
  Machine, Outcomes, daemon_reload, enable, enable_linger, start, run_setup_daemon, setup_hooks,
  start_service, tassh_daemon_unit, with_access, ServiceCommand,
}
use tassh.Prelude.{
  ℕ, Text, List, Option, Bool, ok, some, true, [], ◌∷◌, ◌++◌, ◌≡◌, ◌||◌, arith, ◌+◌, refl, ap, not,
  ◌∙◌,
}

-- The system lets a profile be opened, locked and read, and takes what is appended.
pub record IsGranted (a : Access) : Type 0 where
  pub opened : a.opened ≡ true
  pub locked : a.locked ≡ true
  pub readable : a.readable ≡ true
  pub written : a.written ≡ complete

granted_ok :
    (a : Access) (file : Option Text)
    → IsGranted a
    → (changed : Bool) × ((ensure_shell_snippet a file).1 ≡ ok changed)
unfolding ensure_shell_snippet
granted_ok a file g = (
  not (contains_text marker (or_empty file)),
  ground (arith, g.opened, g.locked, g.readable, g.written),
)

install_twice :
    (access again : ℕ → Access) (i : ℕ) (files : List (Option Text))
    → ((j : ℕ) → IsGranted (access j))
    → ((j : ℕ) → IsGranted (again j))
    → install_shell_snippets
        (with_access again i (install_shell_snippets (with_access access i files)))
      ≡ install_shell_snippets (with_access access i files)
unfolding install_shell_snippets with_access
install_twice access again i [] g h = refl
install_twice access again i (file ∷ files) g h =
    let (changed, e) = granted_ok (access i) file (g i) in
    let first =
      ensure_shell_snippet_twice (access i) (again i) file changed e (h i).opened (h i).locked
        (h i).readable in
    cc (first, install_twice access again (i + 1) files g h)

files_of-with_access :
    (access : ℕ → Access) (i : ℕ) (files : List (Option Text))
    → files_of (with_access access i files) ≡ files
unfolding with_access
files_of-with_access access i [] = refl
files_of-with_access access i (file ∷ files) =
    ap (λ (fs : List (Option Text)). file ∷ fs) (files_of-with_access access (i + 1) files)

profiles_twice :
    (assume_yes assume_again : Bool) (answer next : Answer) (access again : ℕ → Access)
    (files : List (Option Text))
    → ((j : ℕ) → IsGranted (access j))
    → ((j : ℕ) → IsGranted (again j))
    → (assume_yes || prompt_yes_no answer true) ≡ true
    → let kept = setup_shell_snippets assume_yes answer (with_access access 0 files) in
      setup_shell_snippets assume_again next (with_access again 0 kept) ≡ kept
unfolding setup_shell_snippets
profiles_twice assume_yes assume_again answer next access again files g h agreed = ground (
  arith,
  install_twice access again 0 files g h,
  files_of-with_access again 0 (install_shell_snippets (with_access access 0 files)),
)

-- Every step of a run is successful, and its files can be read.
pub record IsSmooth (o : Outcomes) : Type 0 where
  pub binary : o.binary ≡ true
  pub directory : o.directory ≡ true
  pub unit_written : o.unit_written ≡ some complete
  pub reloads : o.reloads ≡ true
  pub enables : o.enables ≡ true
  pub starts : o.starts ≡ true
  pub config : o.config_access.readable ≡ true
  pub profiles : (i : ℕ) → IsGranted (o.profile_access i)

abbrev commands : Outcomes → List (ServiceCommand × Bool)
commands o =
    (daemon_reload, true) ∷ (enable, true) ∷ (start, true) ∷ (enable_linger, o.lingers) ∷ []

-- What a successful run leaves behind.
run_succeeds :
    (home : Option Text) (port : ℕ) (assume_yes : Bool) (o : Outcomes) (m m' : Machine)
    → run_setup_daemon home port assume_yes o m ≡ (m', ok tt)
    → (m'.unit_file ≡ some (tassh_daemon_unit home port))
      × (setup_ssh_config assume_yes o.config_answer o.config_access m.config ≡ (m'.config, ok tt))
      × (m'.profiles
          ≡ setup_shell_snippets assume_yes o.profile_answer
              (with_access o.profile_access 0 m.profiles))
unfolding run_setup_daemon start_service setup_hooks
run_succeeds home port assume_yes o m m' e = ground arith

-- What a run does in which every step is successful and the configuration is left as it is.
run_smooth :
    (home : Option Text) (port : ℕ) (assume_yes : Bool) (o : Outcomes) (m : Machine)
    → IsSmooth o
    → setup_ssh_config assume_yes o.config_answer o.config_access m.config ≡ (m.config, ok tt)
    → run_setup_daemon home port assume_yes o m ≡ (
      record m {
        unit_file = some (tassh_daemon_unit home port);
        profiles =
            setup_shell_snippets assume_yes o.profile_answer
              (with_access o.profile_access 0 m.profiles);
        commands = m.commands ++ commands o;
      },
      ok tt,
    )
unfolding run_setup_daemon start_service setup_hooks
run_smooth home port assume_yes o m s e =
    ground (arith, s.binary, s.directory, s.unit_written, s.reloads, s.enables, s.starts, e)

-- A successful run in which the user agreed to both hooks and every profile could be opened, locked, read and
-- written, and behind it a run with the same home and port in which every step is successful, the
-- configuration can be read, and every profile is again so accessible: the second is successful and leaves
-- the unit's file, the ssh configuration and the profiles as they are, whatever the user answers then.
-- It only gives its commands to systemctl and loginctl again.
pub run_setup_daemon_twice :
    (home : Option Text) (port : ℕ) (assume_yes assume_again : Bool) (o next : Outcomes)
    (m m' : Machine)
    → (assume_yes || prompt_yes_no o.config_answer true) ≡ true
    → (assume_yes || prompt_yes_no o.profile_answer true) ≡ true
    → ((i : ℕ) → IsGranted (o.profile_access i))
    → IsSmooth next
    → run_setup_daemon home port assume_yes o m ≡ (m', ok tt)
    → run_setup_daemon home port assume_again next m'
      ≡ (record m' { commands = m'.commands ++ commands next }, ok tt)
run_setup_daemon_twice home port assume_yes assume_again o next m m' hc hp g s e =
    let (unit, config, profiles) = run_succeeds home port assume_yes o m m' e in
    let kept =
      setup_ssh_config_twice assume_yes assume_again o.config_answer next.config_answer
        o.config_access next.config_access m.config m'.config hc config s.config in
    let same =
      profiles_twice assume_yes assume_again o.profile_answer next.profile_answer o.profile_access
        next.profile_access m.profiles g s.profiles hp in
    run_smooth home port assume_again next m' s kept ∙ cc (unit, profiles, same)
