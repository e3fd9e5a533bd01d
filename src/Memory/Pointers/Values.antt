-- ===== src/Memory/Pointers/Values.antt =====
-- store/memory/memory.go: what each method does through its pointers, and what it does to the values.
use mathlib.Core.Option
use malipo.Base.{ℕ, ◌<◌, String, ◌≡◌, refl, ◌∙◌, inl, inr, Option, none, some, arith}
use malipo.Base.{Bool-cases, Option-cases, set_pointer}
use malipo.Base.Map.{Map, lookup, insert}
use malipo.Base.Values.{
  map_values, lookup-map_values, map_values-insert, map_values-Below, map_values-written, Below,
  eq_self,
}
use malipo.Store.Error.{Result, ok, err}
use malipo.Store.State.{State, is_terminal, state_eq}
use malipo.Store.Session.{Session}
use malipo.Memory.Defs as Plain
use malipo.Memory.Heap.{
  PointerSession, PointerUpdate, Heap, alloc, overwrite, deref, deref_update, read,
}
use malipo.Memory.Pointers.{
  PointerMemory, IsValid, values, create, get, get_by_checkout_id, copied, transition,
  apply_transition, write_fields,
}

-- What a caller reads through the address that a method returned.
abbrev pub read_result : Result ℕ × PointerMemory → Result Session
read_result (ok p, m) = ok (read m.heap p)
read_result (err e, m) = err e

-- The effect of a method on the values.
abbrev pub on_values : {A : Type 0} → Result A × PointerMemory → Result A × Plain.Memory
on_values (r, m) = (r, values m)

abbrev pub on_read : Result ℕ × PointerMemory → Result Session × Plain.Memory
on_read (r, m) = (read_result (r, m), values m)

pub read-alloc :
    (s : PointerSession) (h : Heap) (p : ℕ) → p < h.next_record → read (alloc s h) p ≡ read h p
read-alloc s h p b = ground arith

pub read-alloc_new : (s : PointerSession) (h : Heap) → read (alloc s h) h.next_record ≡ deref h s
read-alloc_new s h = ground arith

pub values-alloc :
    (s : PointerSession) (h : Heap) (m : Map ℕ)
    → Below h.next_record m
    → map_values (read (alloc s h)) m ≡ map_values (read h) m
values-alloc s h m b =
    map_values-Below (read (alloc s h)) (read h) h.next_record m b (read-alloc s h)

pub create-values :
    (p : ℕ) (m : PointerMemory)
    → IsValid m
    → on_values (create p m) ≡ Plain.create (read m.heap p) (values m)
unfolding create Plain.create
create-values p m v =
    let h = m.heap in
    let s = h.records p in
    elim (Option-cases (lookup s.id m.sessions)) [
      | inl fresh ↦
          rw (create, Plain.create, lookup-map_values (read h) s.id m.sessions, fresh)
            (rw
              (
                map_values-insert (read (alloc s h)) s.id h.next_record m.sessions,
                values-alloc s h m.sessions v.below,
                read-alloc_new s h,
              )
              refl)
      | inr (q, taken) ↦
          rw (create, Plain.create, lookup-map_values (read h) s.id m.sessions, taken) refl
    ]

pub copied-values :
    (o : Option ℕ) (m : PointerMemory)
    → IsValid m
    → on_read (copied o m) ≡ (Plain.found (Option.map (read m.heap) o), values m)
copied-values none m v = refl
copied-values (some p) m v =
    rw
      (
        read-alloc_new (m.heap.records p) m.heap,
        values-alloc (m.heap.records p) m.heap m.sessions v.below,
      )
      refl

pub get-values :
    (id : String) (m : PointerMemory)
    → IsValid m
    → on_read (get id m) ≡ (Plain.get id (values m), values m)
unfolding get Plain.get
get-values id m v =
    rw (get, Plain.get, lookup-map_values (read m.heap) id m.sessions)
      (copied-values (lookup id m.sessions) m v)

pub get_by_checkout-values :
    (c : String) (m : PointerMemory)
    → IsValid m
    → on_read (get_by_checkout_id c m) ≡ (Plain.get_by_checkout_id c (values m), values m)
unfolding get_by_checkout_id Plain.get_by_checkout_id
get_by_checkout-values c m v = elim (Option-cases (lookup c m.by_checkout)) [
  | inl absent ↦ rw (get_by_checkout_id, Plain.get_by_checkout_id, absent) refl
  | inr (id, p) ↦
      rw
        (
          get_by_checkout_id,
          Plain.get_by_checkout_id,
          p,
          lookup-map_values (read m.heap) id m.sessions,
        )
        (copied-values (lookup id m.sessions) m v)
]

-- A write through the address of a map slot replaces the session of the slot.
values-overwrite :
    (id : String) (p : ℕ) (s : PointerSession) (m : PointerMemory)
    → IsValid m
    → lookup id m.sessions ≡ some p
    → map_values (read (overwrite p s m.heap)) m.sessions
      ≡ insert id (deref m.heap s) (values m).sessions
values-overwrite id p s m v at =
    map_values-written (read m.heap) (read (overwrite p s m.heap)) p (λ q e. rw e refl) id
      m.sessions v.apart at
    ∙ rw (eq_self p) refl

map-set_pointer :
    {A B : Type 0} (f : A → B) (new old : Option A)
    → Option.map f (set_pointer new old) ≡ set_pointer (Option.map f new) (Option.map f old)
map-set_pointer f none old = refl
map-set_pointer f (some a) old = refl

apply_transition-values :
    (id : String) (p : ℕ) (to : State) (u : Option PointerUpdate) (m : PointerMemory)
    → IsValid m
    → lookup id m.sessions ≡ some p
    → values (apply_transition p to u m)
      ≡ Plain.apply_transition id to (Option.map (deref_update m.heap) u) (read m.heap p) (values m)
unfolding apply_transition Plain.apply_transition
apply_transition-values id p to none m v at =
    rw (values-overwrite id p (record (m.heap.records p) { state = to }) m v at) refl
apply_transition-values id p to (some u) m v at =
    let s = write_fields u (m.heap.records p) in
    rw (values-overwrite id p (record s { state = to }) m v at) (
      rw
        (
          map-set_pointer m.heap.amounts u.confirmed_amount (m.heap.records p).confirmed_amount,
          map-set_pointer m.heap.phones u.confirmed_phone (m.heap.records p).confirmed_phone,
          map-set_pointer m.heap.times u.consumed_at (m.heap.records p).consumed_at,
        )
        refl)

pub transition-values :
    (id : String) (from to : State) (u : Option PointerUpdate) (m : PointerMemory)
    → IsValid m
    → on_values (transition id from to u m)
      ≡ Plain.transition id from to (Option.map (deref_update m.heap) u) (values m)
unfolding transition Plain.transition
transition-values id from to u m v = elim (Option-cases (lookup id m.sessions)) [
  | inl absent ↦
      rw (transition, Plain.transition, lookup-map_values (read m.heap) id m.sessions, absent) refl
  | inr (p, at) ↦
      rw (transition, Plain.transition, lookup-map_values (read m.heap) id m.sessions, at)
        (elim (Bool-cases (is_terminal (m.heap.records p).state)) [
          | inl ended ↦ rw ended refl
          | inr live ↦ elim (Bool-cases (state_eq (m.heap.records p).state from)) [
            | inl met ↦ rw (live, met, apply_transition-values id p to u m v at) refl
            | inr unmet ↦ rw (live, unmet) refl
          ]
        ])
]
