-- ===== src/Setup/Concurrent.antt =====
-- src/setup.rs: runs of `ensure_shell_snippet` on one profile at the same time. Each takes the lock of
-- `flock` for its read, its check and its write; closing the file, also by a crash, releases it. A profile
-- that is missing is an empty one, since a run that opens it creates it.
use tassh.Strings.Search.{contains_text}
use tassh.Setup.{Access, marker, to_append, written_text}
use tassh.Prelude.{Text, Option, List, some, none, ◌∷◌, ◌++◌, ◌≡◌, ◌||◌, not, true, false}

-- The run that holds the lock: it has read nothing yet, or has read the text and not found the hook.
pub data Holding : Type 0 where
  locked : Access → Holding
  checked : Access → Text → Holding

pub record Profile : Type 0 where
  pub text : Text
  pub holder : Option Holding
  -- the runs that have not come to the lock
  pub runs : List Access

pub data RunStep : Profile → Profile → Type 0 where
  refuses :
      {text : Text} {holder : Option Holding}
      → (before after : List Access) (a : Access) → (not a.opened || not a.locked) ≡ true
      → RunStep
          (record { text = text; holder = holder; runs = before ++ a ∷ after })
          (record { text = text; holder = holder; runs = before ++ after })
  takes :
      {text : Text}
      → (before after : List Access) (a : Access) → a.opened ≡ true
      → a.locked ≡ true
      → RunStep
          (record { text = text; holder = none; runs = before ++ a ∷ after })
          (record { text = text; holder = some (locked a); runs = before ++ after })
  unreadable :
      {text : Text} {a : Access} {runs : List Access}
      → a.readable ≡ false
      → RunStep
          (record { text = text; holder = some (locked a); runs = runs })
          (record { text = text; holder = none; runs = runs })
  finds :
      {text : Text} {a : Access} {runs : List Access}
      → a.readable ≡ true
      → contains_text marker text ≡ true
      → RunStep
          (record { text = text; holder = some (locked a); runs = runs })
          (record { text = text; holder = none; runs = runs })
  reads :
      {text : Text} {a : Access} {runs : List Access}
      → a.readable ≡ true
      → contains_text marker text ≡ false
      → RunStep
          (record { text = text; holder = some (locked a); runs = runs })
          (record { text = text; holder = some (checked a text); runs = runs })
  appends :
      {text content : Text} {a : Access} {runs : List Access}
      → RunStep
          (record { text = text; holder = some (checked a content); runs = runs })
          (record {
            text = text ++ written_text a.written (to_append content);
            holder = none;
            runs = runs;
          })
  crashes :
      {text : Text} {h : Holding} {runs : List Access}
      → RunStep
          (record { text = text; holder = some h; runs = runs })
          (record { text = text; holder = none; runs = runs })

pub data RunSteps : Profile → Profile → Type 0 where
  done : {p : Profile} → RunSteps p p
  more : {p q r : Profile} → RunStep p q → RunSteps q r → RunSteps p r
