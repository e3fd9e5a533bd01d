-- ===== src/Memory/Sweep.antt =====
-- The two scans of `MemoryAdapter`: `ExpireStale` and `ListPending`.
use mathlib.Core.Option
use mathlib.Core.List.{Memᴰ}
use malipo.Base.{ℕ, ◌+◌, String, ◌≡◌, refl, inl, inr, true, false, some, List, [], ◌∷◌, arith}
use malipo.Base.{if◌then◌else◌, All, Bool-cases, str_eq}
use malipo.Base.Lists.{length}
use malipo.Base.Map.{Map, lookup, Distinct}
use malipo.Store.State.{is_terminal}
use malipo.Store.Session.{Session, Time}
use malipo.Memory.Defs.{is_stale, expire_one, expire_from, is_due, pending_in}

module _ (before : Time) where
  pub lookup-expire_from :
      (k : String) (m : Map Session) (n : ℕ)
      → lookup k (expire_from before m n).0 ≡ Option.map (expire_one before) (lookup k m)
  unfolding lookup expire_from
  lookup-expire_from k [] n = refl
  lookup-expire_from k ((j, s) ∷ m) n =
      ground (arith, lookup-expire_from k m (if is_stale before s then n + 1 else n))

  -- The sessions that a sweep has to time out.
  abbrev pub stale_in : Map Session → List Session
  stale_in [] = []
  stale_in ((k, s) ∷ m) = if is_stale before s then s ∷ stale_in m else stale_in m

  -- The count that the loop of `ExpireStale` returns is the one it began with and the number of the
  -- sessions that were stale.
  pub expire_from-count :
      (m : Map Session) (n : ℕ) → (expire_from before m n).1 ≡ n + length (stale_in m)
  unfolding expire_from
  expire_from-count [] n = omega arith
  expire_from-count ((k, s) ∷ m) n =
      ground (arith, expire_from-count m (if is_stale before s then n + 1 else n))

  pub expire_one-fresh : (s : Session) → is_stale before (expire_one before s) ≡ false
  unfolding is_terminal
  expire_one-fresh s = ground arith

  -- After the loop of `ExpireStale` no session is stale for the same cutoff.
  stale_in-expire_from : (m : Map Session) (n : ℕ) → stale_in (expire_from before m n).0 ≡ []
  unfolding expire_from
  stale_in-expire_from [] n = refl
  stale_in-expire_from ((k, s) ∷ m) n =
      rw (expire_one-fresh s) (stale_in-expire_from m (if is_stale before s then n + 1 else n))

  -- A sweep over a map with nothing stale changes nothing.
  expire_from-nothing :
      (m : Map Session) (n : ℕ) → stale_in m ≡ [] → expire_from before m n ≡ (m, n)
  unfolding expire_from
  expire_from-nothing [] n h = refl
  expire_from-nothing ((k, s) ∷ m) n h = ground (arith, expire_from-nothing m n)

  pub Distinct-expire_from :
      (m : Map Session) (n : ℕ) → Distinct m → Distinct (expire_from before m n).0
  unfolding expire_from
  Distinct-expire_from [] n d = tt
  Distinct-expire_from ((k, s) ∷ m) n d = ground (
    arith,
    lookup-expire_from k m (if is_stale before s then n + 1 else n),
    Distinct-expire_from m (if is_stale before s then n + 1 else n),
  )

  -- What holds of every entry that is due holds of every listed session.
  pub All-pending_in {κ} :
      (P : Session → Type κ) (m : Map Session)
      → All (λ (e : String × Session). is_due before e.1 ≡ true → P e.1) m
      → All P (pending_in before m)
  unfolding pending_in
  All-pending_in P [] h = tt
  All-pending_in P ((k, s) ∷ m) h = elim (Bool-cases (is_due before s)) [
    | inl due ↦ rw due (h.0 due, All-pending_in P m h.1)
    | inr early ↦ rw early (All-pending_in P m h.1)
  ]

  -- Every stored session that is pending and was created before the threshold is listed by the loop
  -- of `ListPending`.
  mem-pending_in :
      (k : String) (s : Session) (m : Map Session)
      → lookup k m ≡ some s
      → is_due before s ≡ true
      → Memᴰ s (pending_in before m)
  unfolding lookup pending_in
  mem-pending_in k s [] found due = cc
  mem-pending_in k s ((j, t) ∷ m) found due = elim (Bool-cases (is_due before t)) [
    | inl d ↦ rw d (elim (Bool-cases (str_eq j k)) [
      | inl same ↦ Memᴰ.head (ground arith)
      | inr other ↦ Memᴰ.tail (mem-pending_in k s m (ground arith) due)
    ])
    | inr d ↦ rw d (mem-pending_in k s m (ground arith) due)
  ]
