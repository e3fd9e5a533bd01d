-- ===== src/Memory/Reordered.antt =====
-- store/memory/memory.go: the loops of `ExpireStale` and `ListPending` over the same entries in another order.
use mathlib.Core.List.{Permᴰ}
use mathlib.Core.List.Permᴰ
use malipo.Base.{ℕ, ◌+◌, String, ◌≡◌, refl, ap, ◌∙◌, inl, inr, [], ◌∷◌, arith, subst}
use malipo.Base.{if◌then◌else◌, Bool-cases}
use malipo.Base.Lists.{length}
use malipo.Base.Map.{Map}
use malipo.Base.Values.{map_values}
use malipo.Base.Orders.{swapped}
use malipo.Store.Session.{Session, Time}
use malipo.Memory.Defs.{is_stale, expire_one, expire_from, is_due, pending_in}
use malipo.Memory.Sweep.{stale_in}

pending_in-swapped :
    (before : Time) (a b : String × Session) (m : Map Session)
    → Permᴰ (pending_in before (a ∷ b ∷ m)) (pending_in before (b ∷ a ∷ m))
unfolding pending_in
pending_in-swapped before a b m = elim (Bool-cases (is_due before a.1)) [
  | inl first ↦ elim (Bool-cases (is_due before b.1)) [
    | inl second ↦ rw (first, second) (Permᴰ.swap refl refl)
    | inr other ↦ rw (first, other) (Permᴰ.refl _)
  ]
  | inr other ↦ elim (Bool-cases (is_due before b.1)) [
    | inl second ↦ rw (other, second) (Permᴰ.refl _)
    | inr neither ↦ rw (other, neither) (Permᴰ.refl _)
  ]
]

pub pending_in-perm :
    (before : Time) {m n : Map Session}
    → Permᴰ m n
    → Permᴰ (pending_in before m) (pending_in before n)
unfolding pending_in
pending_in-perm before Permᴰ.nil = Permᴰ.nil
pending_in-perm before (Permᴰ.cons {a = a} {l₁ = m} {l₂ = n} e p) =
    subst (λ x. Permᴰ (pending_in before (a ∷ m)) (pending_in before (x ∷ n))) e
      (elim (Bool-cases (is_due before a.1)) [
        | inl due ↦ rw due (Permᴰ.cons refl (pending_in-perm before p))
        | inr early ↦ rw early (pending_in-perm before p)
      ])
pending_in-perm before (Permᴰ.swap {a = a} {b = b} {l = l} e f) =
    swapped (λ x. Permᴰ (pending_in before (a ∷ b ∷ l)) (pending_in before x)) e f
      (pending_in-swapped before a b l)
pending_in-perm before (Permᴰ.trans p q) =
    Permᴰ.trans (pending_in-perm before p) (pending_in-perm before q)

pub stale_in-perm :
    (before : Time) {m n : Map Session}
    → Permᴰ m n
    → length (stale_in before m) ≡ length (stale_in before n)
stale_in-perm before Permᴰ.nil = refl
stale_in-perm before (Permᴰ.cons {a = a} {l₁ = m} {l₂ = n} e p) =
    subst (λ x. length (stale_in before (a ∷ m)) ≡ length (stale_in before (x ∷ n))) e
      (ground (arith, stale_in-perm before p))
stale_in-perm before (Permᴰ.swap {a = a} {b = b} {l = l} e f) =
    swapped (λ x. length (stale_in before (a ∷ b ∷ l)) ≡ length (stale_in before x)) e f
      (ground arith)
stale_in-perm before (Permᴰ.trans p q) = stale_in-perm before p ∙ stale_in-perm before q

pub expire_from-sessions :
    (before : Time) (m : Map Session) (n : ℕ)
    → (expire_from before m n).0 ≡ map_values (expire_one before) m
unfolding expire_from
expire_from-sessions before [] n = refl
expire_from-sessions before ((k, s) ∷ m) n =
    ap (◌∷◌ (k, expire_one before s))
      (expire_from-sessions before m (if is_stale before s then n + 1 else n))
