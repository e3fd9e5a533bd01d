-- ===== src/Memory/Pointers/Owners.antt =====
-- store/memory/memory.go: no method and no write of a caller makes a map slot share its session with another
-- slot or with a caller.
use malipo.Base.{ℕ, ◌+◌, ◌<◌, String, inl, inr, Option, none, some, arith}
use malipo.Base.{List, [], ◌∷◌, ◌==◌, set_pointer, All, Bool-cases, Option-cases}
use malipo.Base.Map.{Map, lookup, insert}
use malipo.Base.Values.{
  Without, Below-later, Below-insert, Without-Below, Without-insert, Apart-insert,
}
use malipo.Store.State.{State, is_terminal, state_eq}
use malipo.Memory.Heap.{PointerSession, PointerUpdate, Allocated, write, alloc, overwrite}
use malipo.Memory.Pointers.{
  PointerMemory, create, get_by_checkout_id, copied, transition, apply_transition, write_fields,
}
use malipo.Memory.Pointers.Callers.{given, AllocatedUpdate, IsApart}

-- Every time pointer of a session has been allocated.
abbrev pub Timed : ℕ → (ℕ → PointerSession) → Type 0
Timed next records = (p : ℕ) → Allocated next (records p).consumed_at

pub Timed-write :
    (next p : ℕ) (s : PointerSession) (records : ℕ → PointerSession)
    → Allocated next s.consumed_at
    → Timed next records
    → Timed next (write p s records)
Timed-write next p s records a t q = elim (Bool-cases (q == p)) [
  | inl same ↦ rw same a
  | inr other ↦ rw other (t q)
]

pub Allocated-later : (next : ℕ) (o : Option ℕ) → Allocated next o → Allocated (next + 1) o
Allocated-later next none a = tt
Allocated-later next (some t) a = omega (arith, a)

Owned-later :
    (next : ℕ) (m : Map ℕ) (own : List ℕ)
    → All (λ p. (p < next) × Without p m) own
    → All (λ p. (p < next + 1) × Without p m) own
Owned-later next m [] o = tt
Owned-later next m (p ∷ own) o = ((omega (arith, o.0.0), o.0.1), Owned-later next m own o.1)

Owned-insert :
    (id : String) (next : ℕ) (m : Map ℕ) (own : List ℕ)
    → All (λ p. (p < next) × Without p m) own
    → All (λ p. (p < next + 1) × Without p (insert id next m)) own
Owned-insert id next m [] o = tt
Owned-insert id next m (p ∷ own) o = (
  (omega (arith, o.0.0), Without-insert p next id m (ground (arith, o.0.0)) o.0.1),
  Owned-insert id next m own o.1,
)

-- A new session, to which no map slot points.
pub alloc-IsApart :
    (s : PointerSession) (m : PointerMemory) (own : List ℕ)
    → Allocated m.heap.next_time s.consumed_at
    → IsApart (record { memory = m; own = own })
    → IsApart
        (record { memory = record m { heap = alloc s m.heap }; own = m.heap.next_record ∷ own })
alloc-IsApart s m own a w = record {
  valid = record {
    apart = w.valid.apart;
    below = Below-later m.heap.next_record m.sessions w.valid.below;
    timed = Timed-write m.heap.next_time m.heap.next_record s m.heap.records a w.valid.timed;
  };
  owned = (
    (omega arith, Without-Below m.heap.next_record m.sessions w.valid.below),
    Owned-later m.heap.next_record m.sessions own w.owned,
  );
}

pub overwrite-IsApart :
    (p : ℕ) (s : PointerSession) (m : PointerMemory) (own : List ℕ)
    → Allocated m.heap.next_time s.consumed_at
    → IsApart (record { memory = m; own = own })
    → IsApart (record { memory = record m { heap = overwrite p s m.heap }; own = own })
overwrite-IsApart p s m own a w = record {
  valid = record {
    apart = w.valid.apart;
    below = w.valid.below;
    timed = Timed-write m.heap.next_time p s m.heap.records a w.valid.timed;
  };
  owned = w.owned;
}

pub create-IsApart :
    (p : ℕ) (m : PointerMemory) (own : List ℕ)
    → IsApart (record { memory = m; own = own })
    → IsApart (record { memory = (create p m).1; own = own })
unfolding create
create-IsApart p m own w =
    let s = m.heap.records p in
    elim (Option-cases (lookup s.id m.sessions)) [
      | inr (q, taken) ↦ rw (create, taken) w
      | inl fresh ↦
          rw (create, fresh)
            (record {
              valid = record {
                apart =
                    Apart-insert s.id m.heap.next_record m.sessions fresh
                      (Without-Below m.heap.next_record m.sessions w.valid.below) w.valid.apart;
                below =
                    Below-insert s.id m.heap.next_record (m.heap.next_record + 1) m.sessions
                      (omega arith) (Below-later m.heap.next_record m.sessions w.valid.below);
                timed =
                    Timed-write m.heap.next_time m.heap.next_record s m.heap.records
                      (w.valid.timed p) w.valid.timed;
              };
              owned = Owned-insert s.id m.heap.next_record m.sessions own w.owned;
            })
    ]

pub copied-IsApart :
    (o : Option ℕ) (m : PointerMemory) (own : List ℕ)
    → IsApart (record { memory = m; own = own })
    → IsApart (given (copied o m) own)
copied-IsApart none m own w = w
copied-IsApart (some p) m own w = alloc-IsApart (m.heap.records p) m own (w.valid.timed p) w

pub find-IsApart :
    (c : String) (m : PointerMemory) (own : List ℕ)
    → IsApart (record { memory = m; own = own })
    → IsApart (given (get_by_checkout_id c m) own)
unfolding get_by_checkout_id
find-IsApart c m own w = elim (Option-cases (lookup c m.by_checkout)) [
  | inl absent ↦ rw (get_by_checkout_id, absent) w
  | inr (id, at) ↦ rw (get_by_checkout_id, at) (copied-IsApart (lookup id m.sessions) m own w)
]

Allocated-set_pointer :
    (next : ℕ) (new old : Option ℕ)
    → Allocated next new
    → Allocated next old
    → Allocated next (set_pointer new old)
Allocated-set_pointer next none old a b = b
Allocated-set_pointer next (some t) old a b = a

apply_transition-IsApart :
    (p : ℕ) (to : State) (u : Option PointerUpdate) (m : PointerMemory) (own : List ℕ)
    → AllocatedUpdate m.heap.next_time u
    → IsApart (record { memory = m; own = own })
    → IsApart (record { memory = apply_transition p to u m; own = own })
unfolding apply_transition
apply_transition-IsApart p to none m own a w =
    overwrite-IsApart p (record (m.heap.records p) { state = to }) m own (w.valid.timed p) w
apply_transition-IsApart p to (some u) m own a w =
    let s = write_fields u (m.heap.records p) in
    let after =
      overwrite-IsApart p (record s { state = to }) m own
        (Allocated-set_pointer m.heap.next_time u.consumed_at (m.heap.records p).consumed_at a
          (w.valid.timed p))
        w in
    record {
      valid = record {
        apart = after.valid.apart;
        below = after.valid.below;
        timed = after.valid.timed;
      };
      owned = after.owned;
    }

pub transition-IsApart :
    (id : String) (from to : State) (u : Option PointerUpdate) (m : PointerMemory) (own : List ℕ)
    → AllocatedUpdate m.heap.next_time u
    → IsApart (record { memory = m; own = own })
    → IsApart (record { memory = (transition id from to u m).1; own = own })
unfolding transition
transition-IsApart id from to u m own a w = elim (Option-cases (lookup id m.sessions)) [
  | inl absent ↦ rw (transition, absent) w
  | inr (p, at) ↦
      rw (transition, at)
        (elim (Bool-cases (is_terminal (m.heap.records p).state)) [
          | inl ended ↦ rw ended w
          | inr live ↦ elim (Bool-cases (state_eq (m.heap.records p).state from)) [
            | inl met ↦ rw (live, met) (apply_transition-IsApart p to u m own a w)
            | inr unmet ↦ rw (live, unmet) w
          ]
        ])
]
