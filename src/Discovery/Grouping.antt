-- ===== src/Discovery/Grouping.antt =====
-- The hosts of `discover_existing_ssh_sessions` in src/daemon.rs against the lines of pgrep.
use tassh.Strings.Numbers.{parse_unsigned, parse_unsigned-le}
use tassh.Strings.Words.{split_whitespace}
use tassh.Protocol.{u32_max}
use tassh.Daemon.Sections.{contains}
use tassh.Daemon.Valid.{pid_mod}
use tassh.Ssh.{
  is_ssh_client_command, any_text, Extracted, panicked, host, extract_ssh_destination_host,
}
use tassh.Discovery.{
  Line, skipped, broken, session, read_parts, of_extracted, read_line, insert_pid, add_session,
  group_lines,
}
use tassh.Prelude.{
  if◌then◌else◌, true, ap, not, text_eq_iff, ℕ, Text, List, Option, HashMap, Bool, [], ◌≡◌, lookup,
  KeysDistinct, text_eq, false, ◌==◌, some, All, ◌&&◌, ◌||◌, ◌<◌, none, Bool-cases, Option-cases,
  arith, inl, lookup-modify, inr, or_insert, lookup-or_insert, ◌⊎◌, modify, modify-KeysDistinct,
  subst, or_insert-KeysDistinct, refl, ◌∷◌,
}

abbrev is_session : Line → Text → ℕ → Bool
is_session (session j q) h pid = text_eq j h && q == pid
is_session _ h pid = false

abbrev has_pid : Option ℕ → ℕ → Bool
has_pid none pid = false
has_pid (some n) pid = n == pid

abbrev has_host : Extracted → Text → Bool
has_host (host (some j)) h = text_eq j h
has_host _ h = false

-- The words are those of this process to this host: its PID, an ssh program, and arguments that name the
-- host, which is no alias of the machine itself.
abbrev is_of : List Text → List Text → Text → ℕ → Bool
is_of self_aliases (word ∷ program ∷ arg ∷ args) h pid =
    has_pid (parse_unsigned u32_max word) pid
    && is_ssh_client_command program
    && has_host (extract_ssh_destination_host (arg ∷ args)) h
    && not (any_text self_aliases h)
is_of self_aliases _ h pid = false

-- Some line is of this process to this host.
unfoldable pub mentions : List Text → List Text → Text → ℕ → Bool
mentions self_aliases [] h pid = false
mentions self_aliases (line ∷ rest) h pid =
    is_of self_aliases (split_whitespace line) h pid || mentions self_aliases rest h pid

of_extracted-is_of :
    (self_aliases : List Text) (n : ℕ) (x : Extracted) (h : Text) (pid : ℕ)
    → is_session (of_extracted self_aliases n x) h pid
      ≡ ((n == pid) && has_host x h && not (any_text self_aliases h))
of_extracted-is_of self_aliases n panicked h pid = ground arith
of_extracted-is_of self_aliases n (host none) h pid = ground arith
of_extracted-is_of self_aliases n (host (some j)) h pid = elim (Bool-cases (text_eq j h)) [
  | inl e ↦
      let s : any_text self_aliases j ≡ any_text self_aliases h =
        ap (any_text self_aliases) ((text_eq_iff j h).0 e) in
      ground (arith, e, s)
  | inr e ↦ ground (arith, e)
]

of_checked-is_of :
    (self_aliases : List Text) (o : Option ℕ) (is_ssh : Bool) (x : Extracted) (h : Text) (pid : ℕ)
    → is_session
        (elim o [
          | none ↦ skipped
          | some ssh_pid ↦ if not is_ssh then skipped else of_extracted self_aliases ssh_pid x
        ])
        h
        pid
      ≡ (has_pid o pid && is_ssh && has_host x h && not (any_text self_aliases h))
of_checked-is_of self_aliases none is_ssh x h pid = refl
of_checked-is_of self_aliases (some n) false x h pid = ground arith
of_checked-is_of self_aliases (some n) true x h pid =
    ground (arith, of_extracted-is_of self_aliases n x h pid)

-- The line that the code reads as a session is one of this process to this host.
read_parts-is_of :
    (self_aliases parts : List Text) (h : Text) (pid : ℕ)
    → is_session (read_parts self_aliases parts) h pid ≡ is_of self_aliases parts h pid
unfolding read_parts
read_parts-is_of self_aliases [] h pid = refl
read_parts-is_of self_aliases (a ∷ []) h pid = refl
read_parts-is_of self_aliases (a ∷ b ∷ []) h pid = refl
read_parts-is_of self_aliases (word ∷ program ∷ arg ∷ args) h pid =
    of_checked-is_of self_aliases (parse_unsigned u32_max word) (is_ssh_client_command program)
      (extract_ssh_destination_host (arg ∷ args)) h pid

abbrev pub pids_at : Option (List ℕ) → List ℕ
pids_at none = []
pids_at (some pids) = pids

contains-insert_pid :
    (a b : ℕ) (pids : List ℕ) → contains (insert_pid a pids) b ≡ (a == b || contains pids b)
unfolding insert_pid contains
contains-insert_pid a b pids = elim (Bool-cases (contains pids a)) [
  | inl e ↦ ground arith
  | inr e ↦ ground arith
]

add_session-contains :
    (h j : Text) (a b : ℕ) (m : HashMap (List ℕ))
    → contains (pids_at (lookup j (add_session h a m))) b
      ≡ ((text_eq h j && a == b) || contains (pids_at (lookup j m)) b)
unfolding add_session contains
add_session-contains h j a b m = elim (Option-cases (lookup j m)) [
  | inl e ↦ ground (
    arith,
    lookup-modify h j (insert_pid a) (or_insert h [] m),
    lookup-or_insert h j [] m,
    contains-insert_pid a b [],
  )
  | inr (pids, e) ↦ ground (
    arith,
    lookup-modify h j (insert_pid a) (or_insert h [] m),
    lookup-or_insert h j [] m,
    contains-insert_pid a b pids,
  )
]

pub Line-cases :
    (l : Line) → (l ≡ skipped) ⊎ ((l ≡ broken) ⊎ ((h : Text) × (pid : ℕ) × (l ≡ session h pid)))
Line-cases skipped = inl refl
Line-cases broken = inr (inl refl)
Line-cases (session h pid) = inr (inr (h, pid, refl))

-- The grouped hosts hold what they held, and the processes of the lines.
pub group_lines-contains :
    (self_aliases ls : List Text) (m last : HashMap (List ℕ)) (h : Text) (pid : ℕ)
    → group_lines self_aliases ls m ≡ some last
    → contains (pids_at (lookup h last)) pid
      ≡ (contains (pids_at (lookup h m)) pid || mentions self_aliases ls h pid)
unfolding group_lines mentions read_line
group_lines-contains self_aliases [] m last h pid e = ground arith
group_lines-contains self_aliases (line ∷ rest) m last h pid e =
    elim (Line-cases (read_line self_aliases line)) [
      | inl q ↦ ground (
        arith,
        group_lines-contains self_aliases rest m last h pid,
        read_parts-is_of self_aliases (split_whitespace line) h pid,
      )
      | inr (inl q) ↦ absurd (ground arith)
      | inr (inr (j, a, q)) ↦ ground (
        arith,
        group_lines-contains self_aliases rest (add_session j a m) last h pid,
        add_session-contains j h a pid m,
        read_parts-is_of self_aliases (split_whitespace line) h pid,
      )
    ]

of_extracted-pid :
    (self_aliases : List Text) (n : ℕ) (x : Extracted) (h : Text) (pid : ℕ)
    → of_extracted self_aliases n x ≡ session h pid
    → n ≡ pid
of_extracted-pid self_aliases n panicked h pid e = cc
of_extracted-pid self_aliases n (host none) h pid e = cc
of_extracted-pid self_aliases n (host (some x)) h pid e = ground arith

read_parts-small :
    (self_aliases parts : List Text) (h : Text) (pid : ℕ)
    → read_parts self_aliases parts ≡ session h pid
    → pid < pid_mod
unfolding read_parts
read_parts-small self_aliases [] h pid e = cc
read_parts-small self_aliases (a ∷ []) h pid e = cc
read_parts-small self_aliases (a ∷ b ∷ []) h pid e = cc
read_parts-small self_aliases (word ∷ program ∷ arg ∷ args) h pid e =
    elim (Option-cases (parse_unsigned u32_max word)) [
      | inl q ↦ absurd (ground arith)
      | inr (n, q) ↦ ground (
        arith,
        parse_unsigned-le u32_max word n q,
        of_extracted-pid self_aliases n (extract_ssh_destination_host (arg ∷ args)) h pid,
      )
    ]

insert_pid-small :
    (a : ℕ) (pids : List ℕ)
    → a < pid_mod
    → All (λ pid. pid < pid_mod) pids
    → All (λ pid. pid < pid_mod) (insert_pid a pids)
unfolding insert_pid
insert_pid-small a pids h hs = elim (Bool-cases (contains pids a)) [
  | inl e ↦ rw (e, insert_pid) hs
  | inr e ↦ rw (e, insert_pid) (h, hs)
]

-- A predicate on the values of all entries.
abbrev pub AllValues : (List ℕ → Type 0) → HashMap (List ℕ) → Type 0
AllValues P [] = Unit
AllValues P ((h, pids) ∷ m) = P pids × AllValues P m

or_insert-AllValues :
    (P : List ℕ → Type 0) (h : Text) (m : HashMap (List ℕ))
    → P []
    → AllValues P m
    → AllValues P (or_insert h [] m)
unfolding or_insert
or_insert-AllValues P h [] e a = (e, tt)
or_insert-AllValues P h ((j, pids) ∷ m) e (p, a) = elim (Bool-cases (text_eq j h)) [
  | inl q ↦ rw (q, or_insert) (p, a)
  | inr q ↦ rw (q, or_insert) (p, or_insert-AllValues P h m e a)
]

modify-AllValues :
    (P : List ℕ → Type 0) (h : Text) (f : List ℕ → List ℕ) (m : HashMap (List ℕ))
    → ((pids : List ℕ) → P pids → P (f pids))
    → AllValues P m
    → AllValues P (modify h f m)
unfolding modify
modify-AllValues P h f [] k a = tt
modify-AllValues P h f ((j, pids) ∷ m) k (p, a) = elim (Bool-cases (text_eq j h)) [
  | inl q ↦ rw (q, modify) (k pids p, a)
  | inr q ↦ rw (q, modify) (p, modify-AllValues P h f m k a)
]

-- A hostname stands once, and the processes are `u32`s.
pub record WellFormed (m : HashMap (List ℕ)) : Type 0 where
  pub keys : KeysDistinct m
  pub small : AllValues (All (λ pid. pid < pid_mod)) m

add_session-WellFormed :
    (h : Text) (pid : ℕ) (m : HashMap (List ℕ))
    → pid < pid_mod
    → WellFormed m
    → WellFormed (add_session h pid m)
unfolding add_session
add_session-WellFormed h pid m s w = record {
  keys = modify-KeysDistinct h (insert_pid pid) _ (or_insert-KeysDistinct h [] m w.keys);
  small =
      modify-AllValues _ h (insert_pid pid) (or_insert h [] m) (λ pids. insert_pid-small pid pids s)
        (or_insert-AllValues _ h m tt w.small);
}

pub some_same : {A : Type 0} {a b : A} → ◌≡◌ {A = Option A} (some a) (some b) → a ≡ b
some_same e = cc

pub group_lines-WellFormed :
    (self_aliases ls : List Text) (m last : HashMap (List ℕ))
    → group_lines self_aliases ls m ≡ some last
    → WellFormed m
    → WellFormed last
unfolding group_lines read_line
group_lines-WellFormed self_aliases [] m last e w = subst WellFormed (some_same e) w
group_lines-WellFormed self_aliases (line ∷ rest) m last e w =
    elim (Line-cases (read_line self_aliases line)) [
      | inl q ↦ group_lines-WellFormed self_aliases rest m last (ground arith) w
      | inr (inl q) ↦ absurd (ground arith)
      | inr (inr (h, pid, q)) ↦
          group_lines-WellFormed self_aliases rest (add_session h pid m) last (ground arith) (
            add_session-WellFormed h pid m
              (read_parts-small self_aliases (split_whitespace line) h pid q) w)
    ]
