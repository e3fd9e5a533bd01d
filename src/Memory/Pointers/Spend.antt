-- ===== src/Memory/Pointers/Spend.antt =====
-- store/memory/memory.go: `ConsumeIfConfirmed` through its pointers, and what it does to the values.
use malipo.Base.{ℕ, String, ◌≡◌, refl, false, inl, inr, some, arith}
use malipo.Base.{◌==◌, Bool-cases, Option-cases}
use malipo.Base.Map.{lookup, insert}
use malipo.Base.Values.{lookup-map_values, map_values-written, eq_self}
use malipo.Store.Error.{Result, ok}
use malipo.Store.State.{consumed, confirmed, state_eq}
use malipo.Store.Session.{Session, Time}
use malipo.Memory.Defs as Plain
use malipo.Memory.Heap.{PointerSession, Heap, Allocated, deref, read}
use malipo.Memory.Pointers.{PointerMemory, IsValid, spend, values, copied, consume_if_confirmed}
use malipo.Memory.Pointers.Values.{on_read, values-alloc}

-- The variable `consumedAt` is none that a pointer in use points at.
deref-spend :
    (now : Time) (p : ℕ) (h : Heap) (s : PointerSession)
    → Allocated h.next_time s.consumed_at
    → deref (spend now p h) s ≡ deref h s
deref-spend now p h s b = elim (Option-cases s.consumed_at) [
  | inl nil ↦ rw nil refl
  | inr (t, set) ↦ ground arith
]

read-spend :
    (now : Time) (p q : ℕ) (h : Heap)
    → Allocated h.next_time (h.records q).consumed_at
    → (q == p) ≡ false
    → read (spend now p h) q ≡ read h q
read-spend now p q h b e = rw e (deref-spend now p h (h.records q) b)

-- The copy that `ConsumeIfConfirmed` returns, and the values after it.
spent-values :
    (now : Time) (id : String) (p : ℕ) (m : PointerMemory)
    → IsValid m
    → lookup id m.sessions ≡ some p
    → ◌≡◌ {A = Result Session × Plain.Memory}
        (on_read (copied (some p) (record m { heap = spend now p m.heap })))
        (
          ok (record (read m.heap p) { state = consumed; consumed_at = some now }),
          record (values m) {
            sessions =
                insert id
                  (record (read m.heap p) { state = consumed; consumed_at = some now })
                  (values m).sessions;
          },
        )
spent-values now id p m v at =
    let h = spend now p m.heap in
    rw
      (
        values-alloc (h.records p) h m.sessions v.below,
        map_values-written (read m.heap) (read h) p (λ q e. read-spend now p q m.heap (v.timed q) e)
            id m.sessions v.apart at,
        eq_self m.heap.next_record,
        eq_self p,
        eq_self m.heap.next_time,
      )
      refl

pub consume-values :
    (now : Time) (id : String) (m : PointerMemory)
    → IsValid m
    → on_read (consume_if_confirmed now id m) ≡ Plain.consume_if_confirmed now id (values m)
unfolding consume_if_confirmed Plain.consume_if_confirmed
consume-values now id m v = elim (Option-cases (lookup id m.sessions)) [
  | inl absent ↦
      rw
        (
          consume_if_confirmed,
          Plain.consume_if_confirmed,
          lookup-map_values (read m.heap) id m.sessions,
          absent,
        )
        refl
  | inr (p, at) ↦
      rw
        (
          consume_if_confirmed,
          Plain.consume_if_confirmed,
          lookup-map_values (read m.heap) id m.sessions,
          at,
        )
        (elim (Bool-cases (state_eq (m.heap.records p).state consumed)) [
          | inl spent ↦ rw spent refl
          | inr unspent ↦ elim (Bool-cases (state_eq (m.heap.records p).state confirmed)) [
            | inl met ↦ rw (unspent, met) (spent-values now id p m v at)
            | inr unmet ↦ rw (unspent, unmet) refl
          ]
        ])
]
