-- ===== src/Setup/Once.antt =====
-- The lock of src/setup.rs keeps concurrent runs from writing the hook twice.
use tassh.Strings.Search.{contains_text}
use tassh.Setup.{
  Access, Written, complete, marker, to_append, written_text, or_empty, ensure_shell_snippet,
}
use tassh.Setup.Hooks.{marker_appended}
use tassh.Setup.Concurrent.{
  Holding, locked, checked, Profile, RunStep, refuses, takes, unreadable, finds, reads, appends,
  crashes, RunSteps, done, more,
}
use tassh.Prelude.{
  Bool-cases, not, ◌||◌, subst, Text, Option, List, All, some, none, ◌∷◌, [], ◌++◌, ◌≡◌, ◌⊎◌, inl,
  inr, false, refl, arith, ap, ◌∙◌, sym, true,
}

abbrev IsComplete : Access → Type 0
IsComplete a = a.written ≡ complete

-- What a run that holds the lock knows of the text.
abbrev Knows : Text → Option Holding → Type 0
Knows text none = Unit
Knows text (some (locked a)) = IsComplete a
Knows text (some (checked a content)) =
    IsComplete a × (content ≡ text) × (contains_text marker text ≡ false)

-- The hook was written once, or not at all.
abbrev OnceOrNot : Text → Text → Type 0
OnceOrNot start text = (text ≡ start) ⊎ (text ≡ start ++ to_append start)

record IsOrderly (start : Text) (p : Profile) : Type 0 where
  once : OnceOrNot start p.text
  knows : Knows p.text p.holder
  whole : All IsComplete p.runs

All-remove :
    {A : Type 0} (P : A → Type 0) (before after : List A) (a : A)
    → All P (before ++ a ∷ after)
    → P a × All P (before ++ after)
All-remove P [] after a (pa, h) = (pa, h)
All-remove P (b ∷ before) after a (pb, h) =
    let (pa, rest) = All-remove P before after a h in (pa, (pb, rest))

appended :
    (start text content : Text) (w : Written)
    → w ≡ complete
    → content ≡ text
    → contains_text marker text ≡ false
    → OnceOrNot start text
    → OnceOrNot start (text ++ written_text w (to_append content))
appended start text content w c e q (inl s) = inr (
    ap (λ x. text ++ written_text x (to_append content)) c
    ∙ ap (λ (x : Text). text ++ to_append x) (e ∙ s)
    ∙ ap (λ (x : Text). x ++ to_append start) s)
appended start text content w c e q (inr s) = absurd (ground (arith, q, s, marker_appended start))

RunStep-IsOrderly :
    {start : Text} {p q : Profile} → RunStep p q → IsOrderly start p → IsOrderly start q
RunStep-IsOrderly (refuses before after a r) o = record {
  once = o.once;
  knows = o.knows;
  whole = (All-remove _ before after a o.whole).1;
}
RunStep-IsOrderly (takes before after a r l) o =
    let (w, rest) = All-remove _ before after a o.whole in
    record { once = o.once; knows = w; whole = rest }
RunStep-IsOrderly (unreadable r) o = record { once = o.once; knows = tt; whole = o.whole }
RunStep-IsOrderly (finds r m) o = record { once = o.once; knows = tt; whole = o.whole }
RunStep-IsOrderly (reads r m) o = record {
  once = o.once;
  knows = (o.knows, refl, m);
  whole = o.whole;
}
RunStep-IsOrderly {start} (appends {text} {content} {a} {runs}) o =
    let (c, e, q) = o.knows in
    record {
      once = appended start text content a.written c e q o.once;
      knows = tt;
      whole = o.whole;
    }
RunStep-IsOrderly crashes o = record { once = o.once; knows = tt; whole = o.whole }

RunSteps-IsOrderly :
    {start : Text} {p q : Profile} → RunSteps p q → IsOrderly start p → IsOrderly start q
RunSteps-IsOrderly done o = o
RunSteps-IsOrderly (more x steps) o = RunSteps-IsOrderly steps (RunStep-IsOrderly x o)

-- However many runs work on a profile at the same time, in whatever order they take their steps, whichever
-- fail to open, lock or read it, and whichever crash before they write: while no write is cut, the
-- profile is at any time as it was, or has the hook appended exactly once.
pub hook_written_once :
    (p q : Profile)
    → p.holder ≡ none
    → All (λ a. a.written ≡ complete) p.runs
    → RunSteps p q
    → (q.text ≡ p.text) ⊎ (q.text ≡ p.text ++ to_append p.text)
hook_written_once p q free whole steps =
    (RunSteps-IsOrderly steps
      (record { once = inl refl; knows = subst (Knows p.text) (sym free) tt; whole = whole })).once

abbrev alone : Access → Text → Profile
alone a t = record { text = t; holder = none; runs = a ∷ [] }

abbrev at_rest : Text → Profile
at_rest t = record { text = t; holder = none; runs = [] }

alone_ends :
    (a : Access) (t u : Text)
    → RunSteps (alone a t) (at_rest u)
    → or_empty (ensure_shell_snippet a (some t)).0 ≡ u
    → RunSteps (alone a t) (at_rest (or_empty (ensure_shell_snippet a (some t)).0))
alone_ends a t u steps e = subst (λ (x : Text). RunSteps (alone a t) (at_rest x)) (sym e) steps

-- A run that is alone does what `ensure_shell_snippet` does.
run_alone :
    (a : Access) (t : Text)
    → RunSteps (alone a t) (at_rest (or_empty (ensure_shell_snippet a (some t)).0))
unfolding ensure_shell_snippet
run_alone a t = elim (Bool-cases (not a.opened || not a.locked)) [
  | inl r ↦ alone_ends a t t (more (refuses [] [] a r) done) (ground (arith, r))
  | inr g ↦
      let o : a.opened ≡ true = ground (arith, g) in
      let l : a.locked ≡ true = ground (arith, g) in
      elim (Bool-cases a.readable) [
        | inr r ↦
            alone_ends a t t (more (takes [] [] a o l) (more (unreadable r) done))
              (ground (arith, o, l, r))
        | inl r ↦ elim (Bool-cases (contains_text marker t)) [
          | inl m ↦
              alone_ends a t t (more (takes [] [] a o l) (more (finds r m) done))
                (ground (arith, o, l, r, m))
          | inr m ↦
              alone_ends a t (t ++ written_text a.written (to_append t))
                (more (takes [] [] a o l) (more (reads r m) (more appends done)))
                (ground (arith, o, l, r, m))
        ]
      ]
]
