-- ===== src/Memory/Pointers/Sharing.antt =====
-- store/memory/memory.go: what a copy shares with the record that it was copied from.
use malipo.Base.{
  ℕ, ◌<◌, String, ◌≡◌, refl, sym, ap, ◌∙◌, inl, inr, Option, none, some, arith, subst,
}
use malipo.Base.{Option-cases}
use malipo.Base.Int.{ℤ}
use malipo.Base.Map.{lookup}
use malipo.Base.Values.{lookup-map_values, Below-lookup, eq_self}
use malipo.Store.Session.{Session}
use malipo.Store.Error.{Result, ok}
use malipo.Memory.Defs as Plain
use malipo.Memory.Contract.{state_of}
use malipo.Memory.Heap.{PointerSession, Heap, write, alloc, deref, read}
use malipo.Memory.Pointers.{PointerMemory, IsValid, values, get, copied}
use malipo.Memory.Pointers.Values.{read-alloc}

-- `*s.ConfirmedAmount = x`, where `a` is the pointer.
abbrev pub write_amount : ℕ → ℤ → PointerMemory → PointerMemory
write_amount a x m = record m { heap = record m.heap { amounts = write a x m.heap.amounts } }

-- The write is seen at `a` and nowhere else.
read-write_amount :
    (a q : ℕ) (x : ℤ) (m : PointerMemory)
    → (m.heap.records q).confirmed_amount ≡ some a
    → read (write_amount a x m).heap q ≡ record (read m.heap q) { confirmed_amount = some x }
read-write_amount a q x m e = rw (e, eq_self a) refl

-- A copy is equal to its original.
copy_same :
    (q : ℕ) (h : Heap)
    → q < h.next_record
    → (alloc (h.records q) h).records q ≡ (alloc (h.records q) h).records h.next_record
copy_same q h b = ground arith

state_after :
    (s : PointerSession) (a : ℕ) (x : ℤ) (m : PointerMemory) (j : String)
    → IsValid m
    → state_of (values (write_amount a x (record m { heap = alloc s m.heap }))) j
      ≡ state_of (values m) j
state_after s a x m j v = elim (Option-cases (lookup j m.sessions)) [
  | inl absent ↦
      rw
        (
          lookup-map_values (read m.heap) j m.sessions,
          lookup-map_values (read (write_amount a x (record m { heap = alloc s m.heap })).heap) j
              m.sessions,
          absent,
        )
        refl
  | inr (q, at) ↦
      rw
        (
          lookup-map_values (read m.heap) j m.sessions,
          lookup-map_values (read (write_amount a x (record m { heap = alloc s m.heap })).heap) j
              m.sessions,
          at,
        )
        (ap (λ (t : Session). some t.state)
          (read-alloc s m.heap q (Below-lookup m.heap.next_record q j m.sessions v.below at)))
]

copy_shares :
    (id : String) (m : PointerMemory) (a q : ℕ) (x : ℤ)
    → IsValid m
    → lookup id m.sessions ≡ some q
    → ((alloc (m.heap.records q) m.heap).records m.heap.next_record).confirmed_amount ≡ some a
    → Plain.get id (values (write_amount a x (copied (some q) m).1))
      ≡ ok (record (read (alloc (m.heap.records q) m.heap) m.heap.next_record) {
        confirmed_amount = some x;
      })
unfolding Plain.get
copy_shares id m a q x v at set =
    let after = write_amount a x (copied (some q) m).1 in
    rw (Plain.get, lookup-map_values (read after.heap) id m.sessions, at)
      (ap ok (
        ap (deref after.heap)
          (copy_same q m.heap (Below-lookup m.heap.next_record q id m.sessions v.below at))
        ∙ read-write_amount a m.heap.next_record x (copied (some q) m).1 set))

-- What is shown of an answer of `Get`.
abbrev Shares : String → PointerMemory → ℕ → ℤ → Result ℕ × PointerMemory → ℕ → Type 0
Shares id m a x r p =
    (r.1.heap.records p).confirmed_amount ≡ some a
    → (Plain.get id (values (write_amount a x r.1))
        ≡ ok (record (read r.1.heap p) { confirmed_amount = some x }))
      × ((j : String) → state_of (values (write_amount a x r.1)) j ≡ state_of (values m) j)

found-Shares :
    (id : String) (m : PointerMemory) (a p q : ℕ) (x : ℤ)
    → IsValid m
    → lookup id m.sessions ≡ some q
    → (copied (some q) m).0 ≡ ok p
    → Shares id m a x (copied (some q) m) p
found-Shares id m a p q x v at got =
    let same : m.heap.next_record ≡ p = cc in
    subst (Shares id m a x (copied (some q) m)) same
      (λ set. (copy_shares id m a q x v at set, λ j. state_after (m.heap.records q) a x m j v))

copied-some :
    (o : Option ℕ) (m : PointerMemory) {p : ℕ} → (copied o m).0 ≡ ok p → (q : ℕ) × (o ≡ some q)
copied-some none m e = absurd (ground arith)
copied-some (some q) m e = (q, refl)

-- In a store whose map slots have addresses of their own and whose pointers have been allocated, the copy that `Get` returns shares the variable
-- that `ConfirmedAmount` points at with the stored session: if that pointer is set, then after the
-- caller has written an amount through it, `Get` of the same ID returns the session as it was
-- copied but with the amount that the caller wrote. The state of every session is what it was.
pub get_shares :
    (id : String) (m : PointerMemory) (a p : ℕ) (x : ℤ)
    → IsValid m
    → (get id m).0 ≡ ok p
    → ((get id m).1.heap.records p).confirmed_amount ≡ some a
    → (Plain.get id (values (write_amount a x (get id m).1))
        ≡ ok (record (read (get id m).1.heap p) { confirmed_amount = some x }))
      × ((j : String) → state_of (values (write_amount a x (get id m).1)) j ≡ state_of (values m) j)
unfolding get
get_shares id m a p x v got =
    let (q, at) = copied-some (lookup id m.sessions) m got in
    subst (λ o. (copied o m).0 ≡ ok p → Shares id m a x (copied o m) p) (sym at)
      (found-Shares id m a p q x v at) got
