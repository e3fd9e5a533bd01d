-- ===== src/Memory/Pointers/Scans.antt =====
-- store/memory/memory.go: `ExpireStale` and `ListPending` through their pointers, and what they do to
-- the values.
use malipo.Base.{ℕ, ◌+◌, List, [], ◌∷◌, map, ◌<◌, ◌≡◌, refl, ◌∙◌, ap, false, inl, inr, arith}
use malipo.Base.{◌==◌, if◌then◌else◌, Bool-cases}
use malipo.Base.Map.{Map}
use malipo.Base.Values.{
  map_values, map_values-Below, Below, Below-later, eq_self, Without, Apart, map_values-other,
}
use malipo.Store.Error.{Result, ok, err}
use malipo.Store.Session.{Session, Time}
use malipo.Memory.Defs as Plain
use malipo.Memory.Heap.{PointerSession, Heap, alloc, deref, read}
use malipo.Memory.Pointers.{
  PointerMemory, IsValid, values, is_stale, expire_one, expire_from, expire_stale, is_due,
  pending_in, list_pending,
}
use malipo.Memory.Pointers.Values.{on_values, read-alloc, read-alloc_new, values-alloc}

expire_one-other :
    (before : Time) (p q : ℕ) (records : ℕ → PointerSession)
    → (p == q) ≡ false
    → expire_one before p records q ≡ records q
expire_one-other before p q records e = ground arith

apart_sym : (p q : ℕ) → (p == q) ≡ false → (q == p) ≡ false
apart_sym p q e = ground arith

deref-expire_one :
    (before : Time) (p : ℕ) (records : ℕ → PointerSession) (h : Heap)
    → deref h (expire_one before p records p) ≡ Plain.expire_one before (deref h (records p))
deref-expire_one before p records h = elim (Bool-cases (is_stale before (records p))) [
  | inl stale ↦ rw (stale, eq_self p) refl
  | inr live ↦ rw live refl
]

pub expire_from-other :
    (before : Time) (q : ℕ) (m : Map ℕ) (records : ℕ → PointerSession) (n : ℕ)
    → Without q m
    → (expire_from before m records n).0 q ≡ records q
unfolding expire_from
expire_from-other before q [] records n w = refl
expire_from-other before q ((k, p) ∷ m) records n w =
    expire_from-other before q m (expire_one before p records)
      (if is_stale before (records p) then n + 1 else n) w.1
    ∙ expire_one-other before p q records w.0

expire_from-values :
    (before : Time) (h : Heap) (m : Map ℕ) (records : ℕ → PointerSession) (n : ℕ)
    → Apart m
    → ◌≡◌ {A = Map Session × ℕ}
        (
          map_values (λ p. deref h ((expire_from before m records n).0 p)) m,
          (expire_from before m records n).1,
        )
        (Plain.expire_from before (map_values (λ p. deref h (records p)) m) n)
unfolding expire_from Plain.expire_from
expire_from-values before h [] records n a = refl
expire_from-values before h ((k, p) ∷ m) records n a =
    let records' = expire_one before p records in
    let n' = if is_stale before (records p) then n + 1 else n in
    let tail = expire_from-values before h m records' n' a.2 in
    let kept : map_values (λ q. deref h (records' q)) m ≡ map_values (λ q. deref h (records q)) m =
      map_values-other (λ q. deref h (records q)) (λ q. deref h (records' q)) p
        (λ q e. ap (deref h) (expire_one-other before p q records (apart_sym q p e))) m a.1 in
    rw (expire_from-other before p m records' n' a.1, deref-expire_one before p records h)
      (ap (λ (r : Map Session × ℕ). ((k, Plain.expire_one before (deref h (records p))) ∷ r.0, r.1))
        (tail ∙ ap (λ e. Plain.expire_from before e n') kept))

pub expire-values :
    (before : Time) (m : PointerMemory)
    → IsValid m
    → on_values (expire_stale before m) ≡ Plain.expire_stale before (values m)
unfolding expire_stale Plain.expire_stale
expire-values before m v =
    ap (λ r. (ok r.1, record (values m) { sessions = r.0 }))
      (expire_from-values before m.heap m.sessions m.heap.records 0 v.apart)

pub pending_in-kept :
    (before : Time) (q : ℕ) (m : Map ℕ) (h : Heap)
    → q < h.next_record
    → read (pending_in before m h).1 q ≡ read h q
unfolding pending_in
pending_in-kept before q [] h b = refl
pending_in-kept before q ((k, p) ∷ m) h b = elim (Bool-cases (is_due before (h.records p))) [
  | inl due ↦ rw due (
      pending_in-kept before q m (alloc (h.records p) h) (omega (arith, b))
      ∙ read-alloc (h.records p) h q b)
  | inr early ↦ rw early (pending_in-kept before q m h b)
]

pending_in-values :
    (before : Time) (m : Map ℕ) (h : Heap)
    → Below h.next_record m
    → map (read (pending_in before m h).1) (pending_in before m h).0
      ≡ Plain.pending_in before (map_values (read h) m)
unfolding pending_in Plain.pending_in
pending_in-values before [] h b = refl
pending_in-values before ((k, p) ∷ m) h b = elim (Bool-cases (is_due before (h.records p))) [
  | inl due ↦
      let s = h.records p in
      rw (due, pending_in-kept before h.next_record m (alloc s h) (omega arith), read-alloc_new s h)
        (ap (◌∷◌ (read h p)) (
          pending_in-values before m (alloc s h) (Below-later h.next_record m b.1)
          ∙ ap (Plain.pending_in before) (values-alloc s h m b.1)))
  | inr early ↦ rw early (pending_in-values before m h b.1)
]

-- The values are those before the call: only copies were allocated.
pending_in-values_kept :
    (before : Time) (m entries : Map ℕ) (h : Heap)
    → Below h.next_record entries
    → map_values (read (pending_in before m h).1) entries ≡ map_values (read h) entries
pending_in-values_kept before m entries h b =
    map_values-Below (read (pending_in before m h).1) (read h) h.next_record entries b
      (λ q e. pending_in-kept before q m h e)

abbrev pub on_list : Result (List ℕ) × PointerMemory → Result (List Session) × Plain.Memory
on_list (ok l, m) = (ok (map (read m.heap) l), values m)
on_list (err e, m) = (err e, values m)

pub list_pending-values :
    (before : Time) (m : PointerMemory)
    → IsValid m
    → on_list (list_pending before m) ≡ (Plain.list_pending before (values m), values m)
unfolding list_pending Plain.list_pending
list_pending-values before m v =
    rw
      (
        list_pending,
        Plain.list_pending,
        pending_in-values before m.sessions m.heap v.below,
        pending_in-values_kept before m.sessions m.sessions m.heap v.below,
      )
      refl
