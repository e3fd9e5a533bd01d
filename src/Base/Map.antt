-- ===== src/Base/Map.antt =====
-- Go's `map[string]V` as an association list. A key stands once, since `insert` replaces the value
-- of a key that is there; the order of a `range` loop is unspecified in Go, and here that of entry.
use Prim.Native.String.{String}
use mathlib.Core.Path.{◌≡◌, refl, subst}
use mathlib.Core.Bool.{false}
use mathlib.Core.Logic.{inl, inr}
use mathlib.Core.List.{List, [], ◌∷◌}
use mathlib.Core.Option.{Option, none, some}
use native.Mathlib.Omega.{arith}
use text.Mathlib.Text.{◌==◌}
use text.Mathlib.TextEquality.{eq_iff}
use text.Mathlib.TextPositions.{eq_refl}
use malipo.Base.Tests.{if◌then◌else◌, All, Bool-cases}

abbrev pub Map {ℓ} : Type ℓ → Type ℓ
Map V = List (String × V)

module _ {ℓ} {V : Type ℓ} where
  -- `v, exists := m[k]`
  unfoldable pub lookup : String → Map V → Option V
  lookup key [] = none
  lookup key ((stored, v) ∷ entries) =
      let later = lookup key entries in if stored == key then some v else later

  -- `m[k] = v`
  unfoldable pub insert : String → V → Map V → Map V
  insert key v [] = (key, v) ∷ []
  insert key v ((stored, old) ∷ entries) =
      let later = insert key v entries in
      if stored == key then (key, v) ∷ entries else (stored, old) ∷ later

  pub lookup-insert :
      (written key : String) (v : V) (entries : Map V)
      → lookup key (insert written v entries)
        ≡ (if written == key then some v else lookup key entries)
  unfolding lookup insert
  lookup-insert written key v [] = refl
  lookup-insert written key v ((stored, old) ∷ entries) =
      let later = lookup-insert written key v entries in
      ground (arith, eq_iff written key, eq_iff stored written, eq_iff stored key)

  -- No key stands twice.
  abbrev pub Distinct : Map V → Type ℓ
  Distinct [] = Unit
  Distinct ((k, v) ∷ m) = (lookup k m ≡ none) × Distinct m

  not_inserted :
      (k j : String) (v : V) (m : Map V)
      → (j == k) ≡ false
      → lookup j m ≡ none
      → lookup j (insert k v m) ≡ none
  not_inserted k j v m other absent = ground (arith, eq_iff j k, eq_iff k j, lookup-insert k j v m)

  pub insert-Distinct : (k : String) (v : V) (m : Map V) → Distinct m → Distinct (insert k v m)
  unfolding insert lookup
  insert-Distinct k v [] d = (refl, tt)
  insert-Distinct k v ((j, w) ∷ m) d = elim (Bool-cases (j == k)) [
    | inl same ↦ rw same (subst (λ i. lookup i m ≡ none) ((eq_iff j k).0 same) d.0, d.1)
    | inr other ↦ rw other (not_inserted k j v m other d.0, insert-Distinct k v m d.1)
  ]

  pub lookup-cons_self : (k : String) (v : V) (m : Map V) → lookup k ((k, v) ∷ m) ≡ some v
  unfolding lookup
  lookup-cons_self k v m = rw (eq_refl k)

  pub lookup-cons_of_some :
      (k j : String) (v w : V) (m : Map V)
      → lookup k m ≡ none
      → lookup j m ≡ some w
      → lookup j ((k, v) ∷ m) ≡ some w
  unfolding lookup
  lookup-cons_of_some k j v w m absent present = ground (arith, eq_iff k j)

module _ {ℓ κ} {V : Type ℓ} where
  -- In a map with distinct keys, what holds of each value under its key holds of each entry.
  pub All-entries :
      (P : String × V → Type κ) (m : Map V)
      → Distinct m
      → ((k : String) (v : V) → lookup k m ≡ some v → P (k, v))
      → All P m
  All-entries P [] d h = tt
  All-entries P ((k, v) ∷ m) d h = (
    h k v (lookup-cons_self k v m),
    All-entries P m d.1 (λ j w e. h j w (lookup-cons_of_some k j v w m d.0 e)),
  )
