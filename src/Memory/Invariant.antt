-- ===== src/Memory/Invariant.antt =====
-- What holds of a `MemoryAdapter` between two calls, and that every method keeps it.
use mathlib.Core.Option
use malipo.Base.{String, ◌≡◌, refl, ◌∙◌, ◌⊎◌, inl, inr, true, Option, none, some, arith}
use malipo.Base.{if◌then◌else◌, is_some, Option-cases, Bool-cases, eq_iff, str_eq}
use malipo.Base.Map.{Map, lookup, insert, lookup-insert, Distinct, insert-Distinct}
use malipo.Store.State.{State}
use malipo.Store.Session.{Session, Update, Time}
use malipo.Memory.Defs.{
  Memory, new_memory_adapter, create, write_update, apply_transition, transition,
  consume_if_confirmed, expire_one, expire_stale,
}
use malipo.Memory.Guards.{create_cases, transition_cases, consume_cases}
use malipo.Memory.Sweep.{lookup-expire_from, Distinct-expire_from}

-- Every record stands under its own ID, every checkout ID leads to a record, and no ID stands twice.
pub record IsValid (m : Memory) : Type 0 where
  pub keyed : (k : String) (s : Session) → lookup k m.sessions ≡ some s → s.id ≡ k
  pub indexed :
      (c id : String) → lookup c m.by_checkout ≡ some id → is_some (lookup id m.sessions) ≡ true
  pub distinct : Distinct m.sessions

pub new_memory_adapter-IsValid : IsValid new_memory_adapter
unfolding lookup
new_memory_adapter-IsValid = record { keyed = λ k s h. cc; indexed = λ c id h. cc; distinct = tt }

-- A write of a record under its own ID keeps the invariant, if the new index leads to that record or
-- to one that was there.
write-IsValid :
    (id : String) (s : Session) (m : Memory) (index : Map String)
    → s.id ≡ id
    → ((c j : String) → lookup c index ≡ some j → (is_some (lookup j m.sessions) ≡ true) ⊎ (id ≡ j))
    → IsValid m
    → IsValid (record { sessions = insert id s m.sessions; by_checkout = index })
write-IsValid id s m index own leads v = record {
  keyed = λ k t h. written_keyed k t (rw (lookup-insert id k s m.sessions) at h);
  indexed = λ c j h. written_indexed j (leads c j h);
  distinct = insert-Distinct id s m.sessions v.distinct;
}
  where
    written_keyed :
        (k : String) (t : Session)
        → (if str_eq id k then some s else lookup k m.sessions) ≡ some t
        → t.id ≡ k
    written_keyed k t h = elim (Bool-cases (str_eq id k)) [
      | inl same ↦ ground (arith, eq_iff id k)
      | inr other ↦ v.keyed k t (ground arith)
    ]

    written_indexed :
        (j : String)
        → (is_some (lookup j m.sessions) ≡ true) ⊎ (id ≡ j)
        → is_some (lookup j (insert id s m.sessions)) ≡ true
    written_indexed j h = ground (arith, lookup-insert id j s m.sessions, eq_iff id j)

pub create-IsValid : (s : Session) (m : Memory) → IsValid m → IsValid (create s m).1
create-IsValid s m v = elim (create_cases s m) [
  | inl (t, taken, e) ↦ rw e v
  | inr (fresh, e) ↦
      rw e (write-IsValid s.id s m m.by_checkout refl (λ c j h. inl (v.indexed c j h)) v)
]

id-write_update : (u : Option Update) (s : Session) (m : Memory) → (write_update u s m).0.id ≡ s.id
id-write_update none s m = refl
id-write_update (some u) s m = refl

index_leads :
    (u : Option Update) (s : Session) (m : Memory) (c j : String)
    → IsValid m
    → lookup c (write_update u s m).1 ≡ some j
    → (is_some (lookup j m.sessions) ≡ true) ⊎ (s.id ≡ j)
index_leads none s m c j v h = inl (v.indexed c j h)
index_leads (some u) s m c j v h = elim (Option-cases u.checkout_request_id) [
  | inl unset ↦ inl (v.indexed c j (ground arith))
  | inr (d, set) ↦ elim (Bool-cases (str_eq d c)) [
    | inl same ↦ inr (ground (arith, lookup-insert d c s.id m.by_checkout))
    | inr other ↦ inl (v.indexed c j (ground (arith, lookup-insert d c s.id m.by_checkout)))
  ]
]

pub transition-IsValid :
    (id : String) (from to : State) (u : Option Update) (m : Memory)
    → IsValid m
    → IsValid (transition id from to u m).1
transition-IsValid id from to u m v = elim (transition_cases id from to u m) [
  | inl (_, e) ↦ rw e v
  | inr (s, found, _, _, e) ↦ rw e (
      unfold apply_transition in
      write-IsValid id _ m _ (id-write_update u s m ∙ v.keyed id s found)
        (λ c j h. rw (← v.keyed id s found) (index_leads u s m c j v h)) v)
]

pub consume-IsValid :
    (now : Time) (id : String) (m : Memory) → IsValid m → IsValid (consume_if_confirmed now id m).1
consume-IsValid now id m v = elim (consume_cases now id m) [
  | inl (_, e) ↦ rw e v
  | inr (s, found, _, e) ↦
      rw e
        (write-IsValid id _ m m.by_checkout (v.keyed id s found) (λ c j h. inl (v.indexed c j h)) v)
]

pub expire-IsValid : (before : Time) (m : Memory) → IsValid m → IsValid (expire_stale before m).1
unfolding expire_stale
expire-IsValid before m v = record {
  keyed = λ k s h. swept_keyed k s (rw (lookup-expire_from before k m.sessions 0) at h);
  indexed = λ c id h.
      rw (lookup-expire_from before id m.sessions 0) (swept_indexed id (v.indexed c id h));
  distinct = Distinct-expire_from before m.sessions 0 v.distinct;
}
  where
    swept_keyed :
        (k : String) (s : Session)
        → Option.map (expire_one before) (lookup k m.sessions) ≡ some s
        → s.id ≡ k
    swept_keyed k s h = elim (Option-cases (lookup k m.sessions)) [
      | inl absent ↦ ground arith
      | inr (t, found) ↦ ground (arith, v.keyed k t found)
    ]

    swept_indexed :
        (id : String)
        → is_some (lookup id m.sessions) ≡ true
        → is_some (Option.map (expire_one before) (lookup id m.sessions)) ≡ true
    swept_indexed id h = ground arith
