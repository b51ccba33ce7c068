-- ===== src/Setup/Examples.antt =====
-- Runs of the setup on small files.
use tassh.Strings.Search.{ends_with_char, contains_text}
use tassh.Strings.{to_ascii_lowercase}
use tassh.Setup.{
  Access, Answer, complete, cut, shell_snippet, marker, snippet_body, stanza_mark,
  has_local_command, prompt_yes_no, setup_ssh_config, to_append,
}
use tassh.Setup.Concurrent.{Profile, RunSteps, takes, reads, appends, more, done, locked}
use tassh.Setup.Once.{hook_written_once}
use tassh.Setup.Service.{
  enable_linger, Machine, Outcomes, run_setup_daemon, start_service, setup_hooks, daemon_reload,
  enable, start,
}
use tassh.Setup.Repeat.{IsGranted, IsSmooth, run_setup_daemon_twice}
use tassh.Prelude.{
  [], ◌∷◌, ◌++◌, none, text_eq, true, Option, false, ◌≡◌, Text, some, ok, refl, codes, ◌⊎◌,
}

abbrev fine : Access
fine = record { opened = true; locked = true; readable = true; written = complete }

abbrev cut_short : Access
cut_short = record fine { written = cut 3 }

abbrev profile : Option Text
profile = some (codes "alias l=ls")

abbrev config : Option Text
config = some (codes "Host box\n")

abbrev agrees : Answer
agrees = (true, some (codes " Yes\n"))

abbrev declines : Answer
declines = (true, some (codes "no\n"))

prompt_answers : (prompt_yes_no agrees false ≡ true) × (prompt_yes_no declines true ≡ false)
unfolding prompt_yes_no text_eq to_ascii_lowercase
prompt_answers = (refl, refl)

snippet_is_ended : ends_with_char 10 shell_snippet ≡ true
unfolding ends_with_char shell_snippet marker snippet_body
snippet_is_ended = refl

other_command_kept :
    setup_ssh_config true agrees fine (some (codes "LocalCommand w"))
    ≡ (some (codes "LocalCommand w"), ok tt)
unfolding setup_ssh_config has_local_command contains_text stanza_mark
other_command_kept = refl

abbrev outcomes : Outcomes
outcomes = record {
  binary = true;
  directory = true;
  unit_written = some complete;
  reloads = true;
  enables = true;
  starts = true;
  lingers = false;
  config_answer = agrees;
  config_access = fine;
  profile_answer = agrees;
  profile_access = λ i. fine;
}

abbrev machine : Machine
machine = record {
  unit_file = none;
  config = config;
  profiles = profile ∷ none ∷ [];
  commands = [];
}

abbrev home : Option Text
home = some (codes "/h")

fine-IsGranted : IsGranted fine
fine-IsGranted = record { opened = refl; locked = refl; readable = refl; written = refl }

outcomes-IsSmooth : IsSmooth outcomes
outcomes-IsSmooth = record {
  binary = refl;
  directory = refl;
  unit_written = refl;
  reloads = refl;
  enables = refl;
  starts = refl;
  config = refl;
  profiles = λ i. fine-IsGranted;
}

-- The first run is one to which the user agrees, and the second one in which the user declines.
abbrev set_up : Machine
set_up = (run_setup_daemon home 9877 false outcomes machine).0

first_run : run_setup_daemon home 9877 false outcomes machine ≡ (set_up, ok tt)
unfolding run_setup_daemon start_service setup_hooks setup_ssh_config has_local_command
    contains_text stanza_mark text_eq to_ascii_lowercase
first_run = refl

run_setup_daemon_twice_example :
    let next = record outcomes { config_answer = declines; profile_answer = declines } in
    run_setup_daemon home 9877 false next set_up ≡ (
      record set_up {
        commands =
            set_up.commands
            ++ (daemon_reload, true) ∷ (enable, true) ∷ (start, true) ∷ (enable_linger, false) ∷ [];
      },
      ok tt,
    )
unfolding text_eq to_ascii_lowercase prompt_yes_no
run_setup_daemon_twice_example =
    run_setup_daemon_twice home 9877 false false outcomes
      (record outcomes { config_answer = declines; profile_answer = declines }) machine set_up refl
      refl (λ i. fine-IsGranted)
      (record {
        binary = refl;
        directory = refl;
        unit_written = refl;
        reloads = refl;
        enables = refl;
        starts = refl;
        config = refl;
        profiles = λ i. fine-IsGranted;
      })
      first_run

-- Two runs wait for the lock of an empty profile.
abbrev two_wait : Profile
two_wait = record { text = []; holder = none; runs = fine ∷ fine ∷ [] }

-- The first has written the hook, the second has the lock.
abbrev second_locked : Profile
second_locked = record { text = to_append []; holder = some (locked fine); runs = [] }

marker_missing : contains_text marker [] ≡ false
unfolding contains_text marker
marker_missing = refl

first_writes : RunSteps two_wait second_locked
first_writes =
    more (takes [] (fine ∷ []) fine refl refl)
      (more (reads refl marker_missing) (more appends (more (takes [] [] fine refl refl) done)))

hook_written_once_example :
    (second_locked.text ≡ two_wait.text)
    ⊎ (second_locked.text ≡ two_wait.text ++ to_append two_wait.text)
hook_written_once_example =
    hook_written_once two_wait second_locked refl (refl, (refl, tt)) first_writes
