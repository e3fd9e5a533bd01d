-- ===== src/Base/Values.antt =====
-- A map whose values are read through a function, and what a write to one of the values changes.
use Prim.Native.String.{String}
use Prim.Native.Nat.{ℕ, ◌+◌, ◌<◌}
use mathlib.Core.Path.{◌≡◌, refl, ap, subst}
use mathlib.Core.Bool.{true, false}
use mathlib.Core.Logic.{inl, inr}
use mathlib.Core.List.{[], ◌∷◌}
use mathlib.Core.Option
use mathlib.Core.Option.{none, some}
use native.Mathlib.Omega.{arith}
use text.Mathlib.Text.{◌==◌ as str_eq}
use text.Mathlib.TextEquality.{eq_iff}
use malipo.Base.Tests.{◌==◌, All, Bool-cases}
use malipo.Base.Map.{Map, lookup, insert, lookup-insert, Distinct}

module _ {V W : Type 0} where
  abbrev pub map_values : (V → W) → Map V → Map W
  map_values f [] = []
  map_values f ((k, v) ∷ m) = (k, f v) ∷ map_values f m

  pub lookup-map_values :
      (f : V → W) (k : String) (m : Map V) → lookup k (map_values f m) ≡ Option.map f (lookup k m)
  unfolding lookup
  lookup-map_values f k [] = refl
  lookup-map_values f k ((j, v) ∷ m) = ground (arith, lookup-map_values f k m)

  pub map_values-insert :
      (f : V → W) (k : String) (v : V) (m : Map V)
      → map_values f (insert k v m) ≡ insert k (f v) (map_values f m)
  unfolding insert
  map_values-insert f k v [] = refl
  map_values-insert f k v ((j, w) ∷ m) = ground (arith, map_values-insert f k v m)

pub eq_self : (p : ℕ) → (p == p) ≡ true
eq_self p = ground arith

-- The addresses of a map are below `next`, the first that is not allocated.
abbrev pub Below : ℕ → Map ℕ → Type 0
Below next m = All (λ (e : String × ℕ). e.1 < next) m

pub map_values-Below :
    {W : Type 0} (f g : ℕ → W) (next : ℕ) (m : Map ℕ)
    → Below next m
    → ((p : ℕ) → p < next → f p ≡ g p)
    → map_values f m ≡ map_values g m
map_values-Below f g next [] b h = refl
map_values-Below f g next ((k, p) ∷ m) b h = rw (h p b.0, map_values-Below f g next m b.1 h)

pub Below-insert :
    (k : String) (p next : ℕ) (m : Map ℕ) → p < next → Below next m → Below next (insert k p m)
unfolding insert
Below-insert k p next [] e b = (e, tt)
Below-insert k p next ((j, q) ∷ m) e b = elim (Bool-cases (str_eq j k)) [
  | inl same ↦ rw same (e, b.1)
  | inr other ↦ rw other (b.0, Below-insert k p next m e b.1)
]

pub Below-later : (next : ℕ) (m : Map ℕ) → Below next m → Below (next + 1) m
Below-later next [] b = tt
Below-later next ((k, p) ∷ m) b = (omega (arith, b.0), Below-later next m b.1)

pub Below-lookup :
    (next p : ℕ) (k : String) (m : Map ℕ) → Below next m → lookup k m ≡ some p → p < next
unfolding lookup
Below-lookup next p k [] b e = cc
Below-lookup next p k ((j, q) ∷ m) b e = ground (arith, Below-lookup next p k m)

-- No entry of a map of addresses has the address `p`.
abbrev pub Without : ℕ → Map ℕ → Type 0
Without p m = All (λ (e : String × ℕ). (e.1 == p) ≡ false) m

-- No address and no key stands twice.
abbrev pub Apart : Map ℕ → Type 0
Apart [] = Unit
Apart ((k, p) ∷ m) = (lookup k m ≡ none) × Without p m × Apart m

Without-lookup :
    (p q : ℕ) (k : String) (m : Map ℕ) → Without p m → lookup k m ≡ some q → (q == p) ≡ false
unfolding lookup
Without-lookup p q k [] w e = cc
Without-lookup p q k ((j, r) ∷ m) w e = ground (arith, Without-lookup p q k m)

module _ {W : Type 0} (f g : ℕ → W) (p : ℕ) (same : (q : ℕ) → (q == p) ≡ false → g q ≡ f q) where
  pub map_values-other : (m : Map ℕ) → Without p m → map_values g m ≡ map_values f m
  map_values-other [] w = refl
  map_values-other ((k, q) ∷ m) w = rw (same q w.0, map_values-other m w.1)

  -- A write to the address of one key, seen through the addresses, is an insertion at that key.
  pub map_values-written :
      (k : String) (m : Map ℕ)
      → Apart m
      → lookup k m ≡ some p
      → map_values g m ≡ insert k (g p) (map_values f m)
  unfolding lookup insert
  map_values-written k [] a e = cc
  map_values-written k ((j, q) ∷ m) a e = elim (Bool-cases (str_eq j k)) [
    | inl equal ↦
        let at : q ≡ p = ground arith in
        rw (equal, at, (eq_iff j k).0 equal)
          (ap (◌∷◌ (k, g p)) (map_values-other m (subst (λ r. Without r m) at a.1)))
    | inr other ↦
        let later : lookup k m ≡ some p = ground arith in
        let apart : (p == q) ≡ false = Without-lookup q p k m a.1 later in
        let differs : (q == p) ≡ false = ground arith in
        rw (other, same q differs, map_values-written k m a.2 later)
  ]

pub Without-Below : (p : ℕ) (m : Map ℕ) → Below p m → Without p m
Without-Below p [] b = tt
Without-Below p ((k, q) ∷ m) b = (ground (arith, b.0), Without-Below p m b.1)

pub Without-insert :
    (p q : ℕ) (k : String) (m : Map ℕ) → (q == p) ≡ false → Without p m → Without p (insert k q m)
unfolding insert
Without-insert p q k [] e w = (e, tt)
Without-insert p q k ((j, r) ∷ m) e w = elim (Bool-cases (str_eq j k)) [
  | inl same ↦ rw same (e, w.1)
  | inr other ↦ rw other (w.0, Without-insert p q k m e w.1)
]

-- A new address under a new key.
pub Apart-insert :
    (k : String) (p : ℕ) (m : Map ℕ)
    → lookup k m ≡ none
    → Without p m
    → Apart m
    → Apart (insert k p m)
unfolding insert lookup
Apart-insert k p [] fresh w a = (refl, tt, tt)
Apart-insert k p ((j, q) ∷ m) fresh w a =
    let other : str_eq j k ≡ false = ground arith in
    let differs : (p == q) ≡ false = ground (arith, w.0) in
    rw other (
      ground (arith, a.0, lookup-insert k j p m, eq_iff j k, eq_iff k j),
      Without-insert q p k m differs a.1,
      Apart-insert k p m (ground arith) w.1 a.2,
    )

pub Apart-Distinct : (m : Map ℕ) → Apart m → Distinct m
Apart-Distinct [] a = tt
Apart-Distinct ((k, p) ∷ m) a = (a.0, Apart-Distinct m a.2)
