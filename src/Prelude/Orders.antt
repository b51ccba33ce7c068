-- ===== src/Prelude/Orders.antt =====
-- Two lists of the same entries: a map has no order.
use mathlib.Core.Logic.{inl, inr, ◌≢◌}
use tassh.Prelude.Tests.{Bool-cases, if◌then◌else◌}
use tassh.Prelude.Texts.{Text, text_eq, text_eq_iff, text_eq_refl}
use tassh.Prelude.Maps.{HashMap, lookup, remove, KeysDistinct}
use mathlib.Core.Path.{◌≡◌}
use mathlib.Core.List.{[], ◌∷◌, Perm}
use mathlib.Core.List.Perm
use mathlib.Core.Option.{none, some}
use native.Mathlib.Omega.{arith}

module _ {ℓ} {V : Type ℓ} where
  -- The same value, or none, under each key.
  abbrev pub SameMap : HashMap V → HashMap V → Type ℓ
  SameMap m n = (k : Text) → lookup k m ≡ lookup k n

  lookup-remove :
      (k j : Text) (m : HashMap V)
      → KeysDistinct m
      → lookup j (remove k m) ≡ (if text_eq k j then none else lookup j m)
  unfolding lookup remove
  lookup-remove k j [] d = ground arith
  lookup-remove k j ((i, v) ∷ m) (out, d) =
      ground (arith, lookup-remove k j m d, out, text_eq_iff i k, text_eq_iff i j, text_eq_iff k j)

  remove-KeysDistinct : (k : Text) (m : HashMap V) → KeysDistinct m → KeysDistinct (remove k m)
  unfolding remove
  remove-KeysDistinct k [] d = tt
  remove-KeysDistinct k ((i, v) ∷ m) (out, d) =
      ground (arith, remove-KeysDistinct k m d, lookup-remove k i m d, out, d)

  remove-Perm :
      (k : Text) (v : V) (m : HashMap V) → lookup k m ≡ some v → Perm m ((k, v) ∷ remove k m)
  unfolding lookup remove
  remove-Perm k v [] e = absurd (cc e)
  remove-Perm k v ((i, w) ∷ m) e = elim (Bool-cases (text_eq i k)) [
    | inl q ↦
        let key : i ≡ k = (text_eq_iff i k).0 q in
        let value : w ≡ v = ground (arith, e, q) in rw (q, key, value) Perm.rfl
    | inr q ↦
        let kept = remove-Perm k v m (ground (arith, e, q)) in
        rw q (Perm.trans (Perm.cons (i, w) kept) (Perm.swap _ _ _))
  ]

  -- Without double keys, the entries are the same but for their order.
  pub SameMap-Perm : (m n : HashMap V) → KeysDistinct m → KeysDistinct n → SameMap m n → Perm m n
  unfolding lookup
  SameMap-Perm [] [] dm dn s = Perm.nil
  SameMap-Perm [] ((k, v) ∷ n) dm dn s = absurd (ground (arith, s k, text_eq_refl k))
  SameMap-Perm ((k, v) ∷ m) n (out, dm) dn s =
      let found : lookup k n ≡ some v = ground (arith, s k, text_eq_refl k) in
      Perm.trans
        (Perm.cons (k, v)
          (SameMap-Perm m (remove k n) dm (remove-KeysDistinct k n dn)
            (λ j. ground (arith, s j, out, lookup-remove k j n dn, text_eq_iff k j))))
        (Perm.symm (remove-Perm k v n found))

  -- Two entries under different keys can be exchanged.
  pub SameMap-swap :
      (j k : Text) (v w : V) (m : HashMap V)
      → j ≢ k
      → SameMap ((j, v) ∷ (k, w) ∷ m) ((k, w) ∷ (j, v) ∷ m)
  unfolding lookup
  SameMap-swap j k v w m differ i = ground (arith, text_eq_iff j i, text_eq_iff k i, differ)
