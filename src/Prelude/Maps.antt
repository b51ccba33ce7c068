-- ===== src/Prelude/Maps.antt =====
-- Rust's `HashMap<String, V>` as the list of its entries. The order of iteration is not specified
-- there; here it is the order of insertion. Orders has the lists that stand for the same map.
use tassh.Prelude.Tests.{if◌then◌else◌, map_option}
use tassh.Prelude.Texts.{Text, text_eq, text_eq_iff}
use mathlib.Core.Path.{◌≡◌, refl}
use mathlib.Core.List.{List, [], ◌∷◌}
use mathlib.Core.Option.{Option, none, some}
use native.Mathlib.Omega.{arith}

abbrev pub HashMap {ℓ} : Type ℓ → Type ℓ
HashMap V = List (Text × V)

module _ {ℓ} {V : Type ℓ} where
  unfoldable pub lookup : Text → HashMap V → Option V
  lookup k [] = none
  lookup k ((j, v) ∷ m) = if text_eq j k then some v else lookup k m

  -- `if let Some(v) = m.get_mut(k) { f(v) }`
  unfoldable pub modify : Text → (V → V) → HashMap V → HashMap V
  modify k f [] = []
  modify k f ((j, v) ∷ m) = if text_eq j k then (j, f v) ∷ m else (j, v) ∷ modify k f m

  -- `m.entry(k).or_insert_with(|| v)`
  unfoldable pub or_insert : Text → V → HashMap V → HashMap V
  or_insert k v [] = (k, v) ∷ []
  or_insert k v ((j, w) ∷ m) = if text_eq j k then (j, w) ∷ m else (j, w) ∷ or_insert k v m

  unfoldable pub remove : Text → HashMap V → HashMap V
  remove k [] = []
  remove k ((j, v) ∷ m) = if text_eq j k then m else (j, v) ∷ remove k m

  pub lookup-modify :
      (k j : Text) (f : V → V) (m : HashMap V)
      → lookup j (modify k f m) ≡ (if text_eq k j then map_option f (lookup j m) else lookup j m)
  unfolding lookup modify
  lookup-modify k j f [] = ground arith
  lookup-modify k j f ((i, v) ∷ m) =
      ground (arith, lookup-modify k j f m, text_eq_iff i k, text_eq_iff i j, text_eq_iff k j)

  abbrev pub or_else : V → Option V → Option V
  or_else v none = some v
  or_else v (some w) = some w

  -- No key stands twice.
  abbrev pub KeysDistinct : HashMap V → Type ℓ
  KeysDistinct [] = Unit
  KeysDistinct ((j, v) ∷ m) = (lookup j m ≡ none) × KeysDistinct m

  pub lookup-or_insert :
      (k j : Text) (v : V) (m : HashMap V)
      → lookup j (or_insert k v m) ≡ (if text_eq k j then or_else v (lookup j m) else lookup j m)
  unfolding lookup or_insert
  lookup-or_insert k j v [] = ground arith
  lookup-or_insert k j v ((i, w) ∷ m) =
      ground (arith, lookup-or_insert k j v m, text_eq_iff i k, text_eq_iff i j, text_eq_iff k j)

  pub modify-KeysDistinct :
      (k : Text) (f : V → V) (m : HashMap V) → KeysDistinct m → KeysDistinct (modify k f m)
  unfolding modify
  modify-KeysDistinct k f [] d = tt
  modify-KeysDistinct k f ((i, v) ∷ m) (out, d) =
      ground (
        arith,
        modify-KeysDistinct k f m d,
        lookup-modify k i f m,
        text_eq_iff i k,
        text_eq_iff k i,
      )

  pub or_insert-KeysDistinct :
      (k : Text) (v : V) (m : HashMap V) → KeysDistinct m → KeysDistinct (or_insert k v m)
  unfolding or_insert lookup
  or_insert-KeysDistinct k v [] d = (refl, tt)
  or_insert-KeysDistinct k v ((i, w) ∷ m) (out, d) = ground (
    arith,
    or_insert-KeysDistinct k v m d,
    lookup-or_insert k i v m,
    text_eq_iff i k,
    text_eq_iff k i,
  )
