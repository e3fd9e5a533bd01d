-- ===== src/Memory/Pointers/Sweeps.antt =====
-- store/memory/memory.go, the methods that allocate or loop: no method and no write of a caller makes a map slot share its session with another
-- slot or with a caller.
use malipo.Base.{ℕ, ◌+◌, String, inl, inr, some, arith}
use malipo.Base.{List, [], ◌∷◌, ◌++◌, if◌then◌else◌, All, Bool-cases, Option-cases}
use malipo.Base.Map.{Map, lookup}
use malipo.Store.State.{consumed, timeout, confirmed, state_eq}
use malipo.Store.Session.{Time}
use malipo.Memory.Heap.{PointerSession, alloc}
use malipo.Memory.Pointers.{
  PointerMemory, spend, consume_if_confirmed, is_stale, expire_one, expire_from, expire_stale,
  is_due, pending_in, list_pending,
}
use malipo.Memory.Pointers.Callers.{given, given_all, Owned, IsApart}
use malipo.Memory.Pointers.Owners.{
  Timed, Timed-write, Allocated-later, alloc-IsApart, copied-IsApart,
}

spend-IsApart :
    (now : Time) (p : ℕ) (m : PointerMemory) (own : List ℕ)
    → IsApart (record { memory = m; own = own })
    → IsApart (record { memory = record m { heap = spend now p m.heap }; own = own })
spend-IsApart now p m own w = record {
  valid = record {
    apart = w.valid.apart;
    below = w.valid.below;
    timed =
        Timed-write (m.heap.next_time + 1) p
          (record (m.heap.records p) { state = consumed; consumed_at = some m.heap.next_time })
          m.heap.records (omega arith)
          (λ q. Allocated-later m.heap.next_time (m.heap.records q).consumed_at (w.valid.timed q));
  };
  owned = w.owned;
}

pub consume-IsApart :
    (now : Time) (id : String) (m : PointerMemory) (own : List ℕ)
    → IsApart (record { memory = m; own = own })
    → IsApart (given (consume_if_confirmed now id m) own)
unfolding consume_if_confirmed
consume-IsApart now id m own w = elim (Option-cases (lookup id m.sessions)) [
  | inl absent ↦ rw (consume_if_confirmed, absent) w
  | inr (p, at) ↦
      rw (consume_if_confirmed, at)
        (elim (Bool-cases (state_eq (m.heap.records p).state consumed)) [
          | inl spent ↦ rw spent w
          | inr unspent ↦ elim (Bool-cases (state_eq (m.heap.records p).state confirmed)) [
            | inl met ↦
                rw (unspent, met)
                  (copied-IsApart (some p) (record m { heap = spend now p m.heap }) own
                    (spend-IsApart now p m own w))
            | inr unmet ↦ rw (unspent, unmet) w
          ]
        ])
]

Timed-expire_from :
    (before : Time) (next : ℕ) (m : Map ℕ) (records : ℕ → PointerSession) (n : ℕ)
    → Timed next records
    → Timed next (expire_from before m records n).0
unfolding expire_from
Timed-expire_from before next [] records n t = t
Timed-expire_from before next ((k, p) ∷ m) records n t =
    Timed-expire_from before next m (expire_one before p records)
      (if is_stale before (records p) then n + 1 else n)
      (elim (Bool-cases (is_stale before (records p))) [
        | inl stale ↦
            rw stale (Timed-write next p (record (records p) { state = timeout }) records (t p) t)
        | inr live ↦ rw live t
      ])

pub expire-IsApart :
    (before : Time) (m : PointerMemory) (own : List ℕ)
    → IsApart (record { memory = m; own = own })
    → IsApart (record { memory = (expire_stale before m).1; own = own })
unfolding expire_stale
expire-IsApart before m own w = record {
  valid = record {
    apart = w.valid.apart;
    below = w.valid.below;
    timed = Timed-expire_from before m.heap.next_time m.sessions m.heap.records 0 w.valid.timed;
  };
  owned = w.owned;
}

All-moved : (P : ℕ → Type 0) (p : ℕ) (l own : List ℕ) → All P (l ++ p ∷ own) → All P (p ∷ l ++ own)
All-moved P p [] own h = h
All-moved P p (q ∷ l) own h = let rest = All-moved P p l own h.1 in (rest.0, (h.0, rest.1))

-- The loop of `ListPending` only allocates.
pending_in-IsApart :
    (before : Time) (entries : Map ℕ) (m : PointerMemory) (own : List ℕ)
    → IsApart (record { memory = m; own = own })
    → IsApart (record {
      memory = record m { heap = (pending_in before entries m.heap).1 };
      own = (pending_in before entries m.heap).0 ++ own;
    })
unfolding pending_in
pending_in-IsApart before [] m own w = w
pending_in-IsApart before ((k, p) ∷ entries) m own w =
    elim (Bool-cases (is_due before (m.heap.records p))) [
      | inl due ↦
          let h = m.heap in
          let copy = record m { heap = alloc (h.records p) h } in
          let after =
            pending_in-IsApart before entries copy (h.next_record ∷ own)
              (alloc-IsApart (h.records p) m own (w.valid.timed p) w) in
          rw due (record {
            valid = after.valid;
            owned =
                All-moved (Owned (record m { heap = (pending_in before entries copy.heap).1 }))
                  h.next_record (pending_in before entries copy.heap).0 own after.owned;
          })
      | inr early ↦ rw early (pending_in-IsApart before entries m own w)
    ]

pub list-IsApart :
    (before : Time) (m : PointerMemory) (own : List ℕ)
    → IsApart (record { memory = m; own = own })
    → IsApart (given_all (list_pending before m) own)
unfolding list_pending
list-IsApart before m own w = pending_in-IsApart before m.sessions m own w
