-- ===== src/Daemon/Tasks.antt =====
-- Counting the tasks of src/daemon.rs that are in flight.
use tassh.Daemon.{Task, pick, spawn_all}
use tassh.Prelude.{
  ℕ, suc, zero, true, false, refl, Bool, List, ◌≡◌, ◌+◌, some, length, [], arith, Option-cases, inl,
  inr, ◌∷◌,
}

abbrev pub bit : Bool → ℕ
bit true = 1
bit false = 0

-- The tasks that pass a test.
abbrev pub count : (Task → Bool) → List Task → ℕ
count p [] = 0
count p (t ∷ ts) = bit (p t) + count p ts

pub count-pick :
    (p : Task → Bool) (n : ℕ) (ts : List Task) (t : Task) (rest : List Task)
    → pick n ts ≡ some (t, rest)
    → count p ts ≡ bit (p t) + count p rest
count-pick p n [] t rest e = cc
count-pick p zero (u ∷ ts) t rest e = ground arith
count-pick p (suc n) (u ∷ ts) t rest e = elim (Option-cases (pick n ts)) [
  | inl q ↦ ground arith
  | inr ((w, more), q) ↦ ground (arith, count-pick p n ts w more q)
]

pub count-spawn_all {ℓ} :
    {A : Type ℓ} (p : Task → Bool) (f : A → Task) (xs : List A) (ts : List Task)
    → ((a : A) → p (f a) ≡ false)
    → count p (spawn_all f xs ts) ≡ count p ts
count-spawn_all p f [] ts h = refl
count-spawn_all p f (x ∷ xs) ts h = rw (h x) (omega (arith, count-spawn_all p f xs ts h))

pub count-spawn_each {ℓ} :
    {A : Type ℓ} (p : Task → Bool) (f : A → Task) (xs : List A) (ts : List Task)
    → ((a : A) → p (f a) ≡ true)
    → count p (spawn_all f xs ts) ≡ length xs + count p ts
count-spawn_each p f [] ts h = ground arith
count-spawn_each p f (x ∷ xs) ts h = rw (h x) (omega (arith, count-spawn_each p f xs ts h))
