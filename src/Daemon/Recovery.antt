-- ===== src/Daemon/Recovery.antt =====
-- No state of the peer management of src/daemon.rs is a dead end for a host with an open session.
use tassh.Peer.{PeerState, get, get-get_mut}
use tassh.Daemon.Sections.{register}
use tassh.Daemon.{
  Daemon, Task, watch, claiming, probing, dialing, forwarding, cleaning, listing, scanning,
  liveness, receiving, Event, refresh, run, step, run_all, pick, perform, spawn_all,
}
use tassh.Daemon.Tasks.{count}
use tassh.Daemon.Channels.{connected_at}
use tassh.Daemon.Attempts.{attempts}
use tassh.Prelude.{
  ℕ, suc, Text, Bool, List, All, Bool-cases, ◌≡◌, ◌≤◌, ◌<◌, some, true, false, [], ◌∷◌, length,
  arith, refl, text_eq_iff, text_eq_refl, inl, inr,
}

-- A tick of the refresh, or a task whose probe or connection is successful.
abbrev pub IsHelpful : Event → Type 0
IsHelpful (refresh false) = Unit
IsHelpful (run n true) = Unit
IsHelpful _ = ⊥

abbrev Found : (Task → Bool) → List Task → Type 0
Found p ts = (n : ℕ) × (t : Task) × (rest : List Task) × (pick n ts ≡ some (t, rest)) × (p t ≡ true)

-- A task that is counted can be picked.
pub count-pick_some : (p : Task → Bool) (ts : List Task) → 0 < count p ts → Found p ts
count-pick_some p [] h = absurd (omega arith)
count-pick_some p (t ∷ ts) h = elim (Bool-cases (p t)) [
  | inl e ↦ (0, t, ts, refl, e)
  | inr e ↦
      let (n, u, rest, found, q) = count-pick_some p ts (ground arith) in
      (suc n, u, t ∷ rest, rw found, q)
]

pub count-spawn_all_keeps {ℓ} :
    {A : Type ℓ} (p : Task → Bool) (f : A → Task) (xs : List A) (ts : List Task)
    → count p ts ≤ count p (spawn_all f xs ts)
count-spawn_all_keeps p f [] ts = omega arith
count-spawn_all_keeps p f (x ∷ xs) ts = omega (arith, count-spawn_all_keeps p f xs ts)

-- A connection that comes about is kept while a session is open.
dialing-connected :
    (d : Daemon) (h : Text) (p : PeerState)
    → get h d.registry ≡ some p
    → 0 < p.session_count
    → connected_at (get h (perform (dialing h) true d).registry) ≡ true
unfolding perform register
dialing-connected d h p e s =
    ground (arith, get-get_mut h h (λ q. (register d.next_channel q).0) d.registry, text_eq_refl h)

-- Each event is allowed in the state in which it happens.
abbrev pub Along : (Daemon → Event → Type 0) → Daemon → List Event → Type 0
Along Q d [] = Unit
Along Q d (e ∷ es) = Q d e × Along Q (step d e) es

-- `Q` says which events are allowed.
module _ (Q : Daemon → Event → Type 0) where
  -- At most `n` helpful events connect the host, each of which is allowed where it happens.
  pub record Recovers (n : ℕ) (d : Daemon) (h : Text) : Type 0 where
    pub more : List Event
    pub helpful : All IsHelpful more
    pub bounded : length more ≤ n
    pub inside : Along Q d more
    pub connects : connected_at (get h (run_all d more).registry) ≡ true

  pub Recovers-le : (n m : ℕ) (d : Daemon) (h : Text) → n ≤ m → Recovers n d h → Recovers m d h
  Recovers-le n m d h le r = record {
    more = r.more;
    helpful = r.helpful;
    bounded = omega (arith, le, r.bounded);
    inside = r.inside;
    connects = r.connects;
  }

  pub recovered :
      (n : ℕ) (d : Daemon) (h : Text) → connected_at (get h d.registry) ≡ true → Recovers n d h
  unfolding run_all
  recovered n d h c = record {
    more = [];
    helpful = tt;
    bounded = omega arith;
    inside = tt;
    connects = c;
  }

  pub Recovers-step :
      (n : ℕ) (d : Daemon) (h : Text) (e : Event)
      → IsHelpful e
      → Q d e
      → Recovers n (step d e) h
      → Recovers (suc n) d h
  unfolding run_all
  Recovers-step n d h e he q r = record {
    more = e ∷ r.more;
    helpful = (he, r.helpful);
    bounded = omega (arith, r.bounded);
    inside = (q, r.inside);
    connects = r.connects;
  }

  -- One more section of the task that is picked.
  pub Recovers-run :
      (k n : ℕ) (d : Daemon) (h : Text) (t : Task) (rest : List Task)
      → pick k d.tasks ≡ some (t, rest)
      → Q d (run k true)
      → Recovers n (perform t true (record d { tasks = rest })) h
      → Recovers (suc n) d h
  unfolding step
  Recovers-run k n d h t rest e q r = Recovers-step n d h (run k true) tt q (rw (e, step) r)

  pub Recovers-dialing :
      (k : ℕ) (d : Daemon) (h j : Text) (p : PeerState) (rest : List Task)
      → get h d.registry ≡ some p
      → 0 < p.session_count
      → j ≡ h
      → pick k d.tasks ≡ some (dialing j, rest)
      → Q d (run k true)
      → Recovers 1 d h
  Recovers-dialing k d h j p rest e s same q o =
      Recovers-run k 0 d h (dialing j) rest q o
        (recovered 0 _ h (rw same (dialing-connected (record d { tasks = rest }) h p e s)))

  pub Recovers-attempt :
      (k : ℕ) (t : Task) (d : Daemon) (h : Text) (p : PeerState) (rest : List Task)
      → get h d.registry ≡ some p
      → 0 < p.session_count
      → attempts h t ≡ true
      → ((d : Daemon) (k : ℕ) (t : Task) (rest : List Task)
          → pick k d.tasks ≡ some (t, rest)
          → attempts h t ≡ true
          → Q d (run k true))
      → pick k d.tasks ≡ some (t, rest)
      → Recovers 2 d h
  unfolding perform
  Recovers-attempt k (dialing j) d h p rest e s a o q =
      Recovers-le 1 2 d h (omega arith)
        (Recovers-dialing k d h j p rest e s ((text_eq_iff j h).0 a) q (o d k (dialing j) rest q a))
  Recovers-attempt k (probing j) d h p rest e s a o q =
      Recovers-run k 1 d h (probing j) rest q (o d k (probing j) rest q a) (
        Recovers-dialing 0 (record d { tasks = dialing j ∷ rest }) h j p rest e s
          ((text_eq_iff j h).0 a) refl
          (o (record d { tasks = dialing j ∷ rest }) 0 (dialing j) rest refl a))
  Recovers-attempt k (watch j pid) d h p rest e s a o q = cc
  Recovers-attempt k (claiming j) d h p rest e s a o q = cc
  Recovers-attempt k (forwarding j c) d h p rest e s a o q = cc
  Recovers-attempt k (cleaning j) d h p rest e s a o q = cc
  Recovers-attempt k (listing c) d h p rest e s a o q = cc
  Recovers-attempt k (scanning j c) d h p rest e s a o q = cc
  Recovers-attempt k (liveness j c) d h p rest e s a o q = cc
  Recovers-attempt k (receiving j) d h p rest e s a o q = cc
