-- ===== src/Base/Orders.antt =====
-- Go leaves the order of the entries of a map open: what does not depend on it.
use Prim.Native.String.{String}
use mathlib.Core.Path.{◌≡◌, refl, ap, ◌∙◌, subst}
use mathlib.Core.Bool.{false}
use mathlib.Core.Logic.{inl, inr}
use mathlib.Core.List.{◌∷◌, Permᴰ}
use native.Mathlib.Omega.{arith}
use text.Mathlib.Text.{◌==◌ as str_eq}
use text.Mathlib.TextEquality.{eq_iff}
use malipo.Base.Tests.{Bool-cases}
use malipo.Base.Map.{Map, lookup, insert, Distinct, insert-Distinct}
use malipo.Base.Values.{map_values}

module _ {V : Type 0} where
  -- Two maps with the same entries in any order, no key standing twice.
  pub record SameEntries (m n : Map V) : Type 0 where
    pub entries : Permᴰ m n
    pub distinct : Distinct m

  lookup-swapped :
      (i j : String) (v w : V) (m : Map V)
      → Distinct ((i, v) ∷ (j, w) ∷ m)
      → Distinct ((j, w) ∷ (i, v) ∷ m)
        × ((k : String) → lookup k ((j, w) ∷ (i, v) ∷ m) ≡ lookup k ((i, v) ∷ (j, w) ∷ m))
  unfolding lookup
  lookup-swapped i j v w m d =
      let other : str_eq j i ≡ false = ground (arith, d.0) in
      let other' : str_eq i j ≡ false = ground (arith, eq_iff i j, eq_iff j i) in
      (
        (rw other' d.1.0, (ground (arith, d.0), d.1.1)),
        λ k. ground (arith, eq_iff i k, eq_iff j k, eq_iff i j),
      )

  -- A swap of the first two entries, with the equations that the relation carries.
  pub swapped {ℓ} :
      (P : Map V → Type ℓ) {a b a' b' : String × V} {l : Map V}
      → a ≡ b'
      → b ≡ a'
      → P (b ∷ a ∷ l)
      → P (a' ∷ b' ∷ l)
  swapped P {a} {b} {a'} {b'} {l} e f h =
      subst (λ x. P (x ∷ b' ∷ l)) f (subst (λ x. P (b ∷ x ∷ l)) e h)

  pub lookup-perm :
      {m n : Map V} → Permᴰ m n → Distinct m → Distinct n × ((k : String) → lookup k n ≡ lookup k m)
  unfolding lookup
  lookup-perm Permᴰ.nil d = (tt, λ k. refl)
  lookup-perm (Permᴰ.cons {a = a} {b = b} {l₁ = m} {l₂ = n} e p) d =
      let (distinct, same) = lookup-perm p d.1 in
      subst (λ x. Distinct (x ∷ n) × ((k : String) → lookup k (x ∷ n) ≡ lookup k (a ∷ m))) e
        ((same a.0 ∙ d.0, distinct), λ k. rw (same k) refl)
  lookup-perm (Permᴰ.swap {a = a} {b = b} {l = l} e f) d =
      swapped (λ x. Distinct x × ((k : String) → lookup k x ≡ lookup k (a ∷ b ∷ l))) e f
        (lookup-swapped a.0 b.0 a.1 b.1 l d)
  lookup-perm (Permᴰ.trans p q) d =
      let (distinct, same) = lookup-perm p d in
      let (distinct', same') = lookup-perm q distinct in (distinct', λ k. same' k ∙ same k)

  insert-swapped :
      (k : String) (v : V) (a b : String × V) (m : Map V)
      → Distinct (a ∷ b ∷ m)
      → Permᴰ (insert k v (a ∷ b ∷ m)) (insert k v (b ∷ a ∷ m))
  unfolding insert lookup
  insert-swapped k v a b m d = elim (Bool-cases (str_eq a.0 k)) [
    | inl first ↦ elim (Bool-cases (str_eq b.0 k)) [
      | inl second ↦ absurd (ground (arith, d.0, eq_iff a.0 k, eq_iff b.0 k, eq_iff b.0 a.0))
      | inr other ↦ rw (first, other) (Permᴰ.swap refl refl)
    ]
    | inr other ↦ elim (Bool-cases (str_eq b.0 k)) [
      | inl second ↦ rw (other, second) (Permᴰ.swap refl refl)
      | inr neither ↦ rw (other, neither) (Permᴰ.swap refl refl)
    ]
  ]

  insert-perm :
      (k : String) (v : V) {m n : Map V}
      → Permᴰ m n
      → Distinct m
      → Permᴰ (insert k v m) (insert k v n)
  unfolding insert
  insert-perm k v Permᴰ.nil d = Permᴰ.cons refl Permᴰ.nil
  insert-perm k v (Permᴰ.cons {a = a} {l₁ = m} {l₂ = n} e p) d =
      subst (λ x. Permᴰ (insert k v (a ∷ m)) (insert k v (x ∷ n))) e
        (elim (Bool-cases (str_eq a.0 k)) [
          | inl same ↦ rw same (Permᴰ.cons refl p)
          | inr other ↦ rw other (Permᴰ.cons refl (insert-perm k v p d.1))
        ])
  insert-perm k v (Permᴰ.swap {a = a} {b = b} {l = l} e f) d =
      swapped (λ x. Permᴰ (insert k v (a ∷ b ∷ l)) (insert k v x)) e f (insert-swapped k v a b l d)
  insert-perm k v (Permᴰ.trans p q) d =
      Permᴰ.trans (insert-perm k v p d) (insert-perm k v q (lookup-perm p d).0)

  pub insert-SameEntries :
      (k : String) (v : V) {m n : Map V}
      → SameEntries m n
      → SameEntries (insert k v m) (insert k v n)
  insert-SameEntries k v {m} s = record {
    entries = insert-perm k v s.entries s.distinct;
    distinct = insert-Distinct k v m s.distinct;
  }

pub map_values-perm :
    {V W : Type 0} (f : V → W) {m n : Map V} → Permᴰ m n → Permᴰ (map_values f m) (map_values f n)
map_values-perm f Permᴰ.nil = Permᴰ.nil
map_values-perm f (Permᴰ.cons e p) = Permᴰ.cons (ap (λ x. (x.0, f x.1)) e) (map_values-perm f p)
map_values-perm f (Permᴰ.swap e g) =
    Permᴰ.swap (ap (λ x. (x.0, f x.1)) e) (ap (λ x. (x.0, f x.1)) g)
map_values-perm f (Permᴰ.trans p q) = Permᴰ.trans (map_values-perm f p) (map_values-perm f q)
