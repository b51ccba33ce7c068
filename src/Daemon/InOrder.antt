-- ===== src/Daemon/InOrder.antt =====
-- A refresh of src/daemon.rs in the order of `refresh_peer_liveness`: the hosts with sessions are listed, all
-- of them are visited one after the other, and then the probes are evaluated.
use tassh.Peer.{PeerState, get}
use tassh.Daemon.{
  Daemon, Task, watch, claiming, probing, dialing, forwarding, cleaning, listing, scanning,
  liveness, receiving, Event, refresh, run, perform, pick,
}
use tassh.Daemon.Tasks.{count, bit, count-pick}
use tassh.Daemon.Attempts.{attempts}
use tassh.Daemon.Reconnect.{IsWaiting, lists, scans}
use tassh.Prelude.{
  Option, Option-cases, text_eq_refl, ap, ℕ, Text, Bool, List, Bool-cases, ◌≡◌, ◌≤◌, ◌<◌, ◌+◌, ◌⊎◌,
  some, true, false, [], ◌∷◌, arith, refl, text_eq, text_eq_iff, inl, inr,
}

-- A visit to a host.
abbrev pub visits : Task → Bool
visits (scanning j check) = true
visits _ = false

-- A probe of the host, which was found not connected.
abbrev pub probes : Text → Task → Bool
probes h (liveness j false) = text_eq j h
probes h _ = false

-- A part of a refresh that is not at its end.
abbrev pub refreshes : Task → Bool
refreshes (cleaning j) = true
refreshes (listing check) = true
refreshes (scanning j check) = true
refreshes (liveness j was_connected) = true
refreshes _ = false

abbrev pub cleans : Task → Bool
cleans (cleaning j) = true
cleans _ = false

-- What a section of a refresh waits for: the listing for the cleaning, and a probe that is evaluated for all
-- visits.
abbrev IsNext : List Task → Option (Task × List Task) → Type 0
IsNext ts (some (listing check, rest)) = count cleans ts ≡ 0
IsNext ts (some (liveness j was_connected, rest)) = (count lists ts ≡ 0) × (count visits ts ≡ 0)
IsNext ts _ = Unit

-- The order of `refresh_peer_liveness`, and of the ticker, which waits for the end of a refresh.
abbrev pub IsInOrder : Daemon → Event → Type 0
IsInOrder d (refresh check) = count refreshes d.tasks ≡ 0
IsInOrder d (run n b) = IsNext d.tasks (pick n d.tasks)
IsInOrder d _ = Unit

attempts-IsNext :
    (h : Text) (ts : List Task) (t : Task) (rest : List Task)
    → attempts h t ≡ true
    → IsNext ts (some (t, rest))
attempts-IsNext h ts (dialing j) rest e = tt
attempts-IsNext h ts (probing j) rest e = tt
attempts-IsNext h ts (watch j pid) rest e = tt
attempts-IsNext h ts (claiming j) rest e = tt
attempts-IsNext h ts (forwarding j c) rest e = tt
attempts-IsNext h ts (cleaning j) rest e = cc
attempts-IsNext h ts (listing c) rest e = cc
attempts-IsNext h ts (scanning j c) rest e = tt
attempts-IsNext h ts (liveness j c) rest e = cc
attempts-IsNext h ts (receiving j) rest e = tt

pub attempts-IsInOrder :
    (h : Text) (d : Daemon) (k : ℕ) (t : Task) (rest : List Task)
    → pick k d.tasks ≡ some (t, rest)
    → attempts h t ≡ true
    → IsInOrder d (run k true)
attempts-IsInOrder h d k t rest q e = rw q (attempts-IsNext h d.tasks t rest e)

pub visits-scanning : (t : Task) → visits t ≡ true → (j : Text) × (c : Bool) × (t ≡ scanning j c)
visits-scanning (scanning j c) e = (j, c, refl)
visits-scanning (watch j pid) e = cc
visits-scanning (claiming j) e = cc
visits-scanning (probing j) e = cc
visits-scanning (dialing j) e = cc
visits-scanning (forwarding j c) e = cc
visits-scanning (cleaning j) e = cc
visits-scanning (listing c) e = cc
visits-scanning (liveness j c) e = cc
visits-scanning (receiving j) e = cc

pub count-scans-le : (h : Text) (ts : List Task) → count (scans h) ts ≤ count visits ts
count-scans-le h [] = omega arith
count-scans-le h (t ∷ ts) = omega (arith, head t, count-scans-le h ts)
  where
    head : (t : Task) → bit (scans h t) ≤ bit (visits t)
    head (scanning j c) = ground arith
    head (watch j pid) = omega arith
    head (claiming j) = omega arith
    head (probing j) = omega arith
    head (dialing j) = omega arith
    head (forwarding j c) = omega arith
    head (cleaning j) = omega arith
    head (listing c) = omega arith
    head (liveness j c) = omega arith
    head (receiving j) = omega arith

-- A visit spawns at most a probe.
pub visited :
    (d : Daemon) (h j : Text) (c : Bool)
    → let ts = (perform (scanning j c) true d).tasks in
      (count visits ts ≡ count visits d.tasks)
      × (count lists ts ≡ count lists d.tasks)
      × (count (scans h) ts ≡ count (scans h) d.tasks)
      × (count (probes h) d.tasks ≤ count (probes h) ts)
unfolding perform
visited d h j c = elim (Option-cases (get j d.registry)) [
  | inl e ↦ (ground (arith, e), ground (arith, e), ground (arith, e), ground (arith, e))
  | inr (q, e) ↦ elim (Bool-cases q.connected) [
    | inl a ↦
        (ground (arith, e, a), ground (arith, e, a), ground (arith, e, a), ground (arith, e, a))
    | inr a ↦
        (ground (arith, e, a), ground (arith, e, a), ground (arith, e, a), ground (arith, e, a))
  ]
]

-- The visit to a host that waits spawns its probe.
visited_here :
    (d : Daemon) (h j : Text) (c : Bool) (p : PeerState)
    → IsWaiting d h p
    → text_eq j h ≡ true
    → 0 < count (probes h) (perform (scanning j c) true d).tasks
unfolding perform
visited_here d h j c p w e =
    rw ((text_eq_iff j h).0 e) (ground (arith, w.here, w.apart, w.free, text_eq_refl h))

-- The host is still to be visited, or its probe is under way.
abbrev pub IsAtHand : Text → List Task → Type 0
IsAtHand h ts = (0 < count (scans h) ts) ⊎ (0 < count (probes h) ts)

pub visit-IsAtHand :
    (d : Daemon) (h j : Text) (c : Bool) (p : PeerState) (k : ℕ) (ts : List Task)
    → IsWaiting d h p
    → pick k ts ≡ some (scanning j c, d.tasks)
    → IsAtHand h ts
    → IsAtHand h (perform (scanning j c) true d).tasks
visit-IsAtHand d h j c p k ts w q a =
    let (_, _, same, more) = visited d h j c in
    let s = count-pick (scans h) k ts (scanning j c) d.tasks q in
    let r = count-pick (probes h) k ts (scanning j c) d.tasks q in
    elim (Bool-cases (text_eq j h)) [
      | inl e ↦ inr (visited_here d h j c p w e)
      | inr e ↦ elim a [
        | inl x ↦ inl (ground (arith, same, s, e, x))
        | inr x ↦ inr (ground (arith, more, r, x))
      ]
    ]

pub probes-liveness : (h : Text) (t : Task) → probes h t ≡ true → t ≡ liveness h false
probes-liveness h (liveness j false) e = ap (λ k. liveness k false) ((text_eq_iff j h).0 e)
probes-liveness h (liveness j true) e = cc
probes-liveness h (watch j pid) e = cc
probes-liveness h (claiming j) e = cc
probes-liveness h (probing j) e = cc
probes-liveness h (dialing j) e = cc
probes-liveness h (forwarding j c) e = cc
probes-liveness h (cleaning j) e = cc
probes-liveness h (listing c) e = cc
probes-liveness h (scanning j c) e = cc
probes-liveness h (receiving j) e = cc

pub count-refreshes :
    (ts : List Task) → count visits ts + count lists ts + count cleans ts ≤ count refreshes ts
count-refreshes [] = omega arith
count-refreshes (t ∷ ts) = omega (arith, head t, count-refreshes ts)
  where
    head : (t : Task) → bit (visits t) + bit (lists t) + bit (cleans t) ≤ bit (refreshes t)
    head (scanning j c) = omega arith
    head (watch j pid) = omega arith
    head (claiming j) = omega arith
    head (probing j) = omega arith
    head (dialing j) = omega arith
    head (forwarding j c) = omega arith
    head (cleaning j) = omega arith
    head (listing c) = omega arith
    head (liveness j c) = omega arith
    head (receiving j) = omega arith

pub lists-listing : (t : Task) → lists t ≡ true → (c : Bool) × (t ≡ listing c)
lists-listing (listing c) e = (c, refl)
lists-listing (watch j pid) e = cc
lists-listing (claiming j) e = cc
lists-listing (probing j) e = cc
lists-listing (dialing j) e = cc
lists-listing (forwarding j c) e = cc
lists-listing (cleaning j) e = cc
lists-listing (scanning j c) e = cc
lists-listing (liveness j c) e = cc
lists-listing (receiving j) e = cc
