-- ===== src/Memory/Contract.antt =====
-- store/memory/memory.go: `MemoryAdapter` as a `store.StorageAdapter`, with the laws of store/adapter.go.
use mathlib.Core.Option
use malipo.Base.{
  String, ◌≡◌, ◌≢◌, refl, ap, ◌⊎◌, inl, inr, true, false, Option, none, some, List, arith,
}
use malipo.Base.{All, Option-cases, Bool-cases}
use malipo.Base.Map.{lookup, lookup-insert, All-entries}
use malipo.Store.State.{State, confirmed, consumed, timeout, is_terminal, state_eq, state_eq_iff}
use malipo.Store.Session.{Session, Update, Time}
use malipo.Store.Error.{
  Error, ok, err, not_found, session_exists, already_consumed, invalid_transition,
}
use malipo.Store.Adapter.{StorageAdapter, IsAdapter, SetsState, is_pending}
use malipo.Memory.Defs.{
  Memory, new_memory_adapter, create, get, get_by_checkout_id, transition, consume_if_confirmed,
  is_stale, expire_stale, pending_in, list_pending,
}
use malipo.Memory.Guards.{
  lookup-apply_transition, create_cases, transition_passed, transition_cases,
}
use malipo.Memory.Sweep.{lookup-expire_from, All-pending_in}
use malipo.Memory.Index.{create_unindexed, transition_indexed}
use malipo.Memory.Invariant.{
  IsValid, new_memory_adapter-IsValid, create-IsValid, transition-IsValid, consume-IsValid,
  expire-IsValid,
}

abbrev pub memory_adapter : StorageAdapter
memory_adapter = record {
  Db = Memory;
  create = create;
  get = get;
  get_by_checkout_id = get_by_checkout_id;
  transition = transition;
  consume_if_confirmed = consume_if_confirmed;
  expire_stale = expire_stale;
  list_pending = list_pending;
}

abbrev pub state_of : Memory → String → Option State
state_of m id = Option.map (λ s. s.state) (lookup id m.sessions)

pub get_present :
    (id : String) (m : Memory) {t : State}
    → IsValid m
    → state_of m id ≡ some t
    → (s : Session) × (get id m ≡ ok s) × (s.id ≡ id) × (s.state ≡ t)
unfolding get
get_present id m v h = elim (Option-cases (lookup id m.sessions)) [
  | inl absent ↦ absurd (ground arith)
  | inr (s, p) ↦ (s, ground arith, v.keyed id s p, ground arith)
]

-- A session that is found by its checkout ID is the one stored under its own ID.
pub get_by_checkout-lookup :
    (c : String) (m : Memory) {s : Session}
    → IsValid m
    → get_by_checkout_id c m ≡ ok s
    → lookup s.id m.sessions ≡ some s
unfolding get_by_checkout_id
get_by_checkout-lookup c m {s} v h = elim (Option-cases (lookup c m.by_checkout)) [
  | inl absent ↦ absurd (ground arith)
  | inr (id, p) ↦ elim (Option-cases (lookup id m.sessions)) [
    | inl absent ↦ absurd (ground arith)
    | inr (t, q) ↦ ground (arith, v.keyed id t q)
  ]
]

pub get_by_checkout_held :
    (c : String) (m : Memory) {s : Session}
    → IsValid m
    → get_by_checkout_id c m ≡ ok s
    → state_of m s.id ≡ some s.state
get_by_checkout_held c m v h = ap (Option.map (λ x. x.state)) (get_by_checkout-lookup c m v h)

pub list_pending_held :
    (t : Time) (m : Memory)
    → IsValid m
    → (l : List Session) × (list_pending t m ≡ ok l)
      × All (λ s. (state_of m s.id ≡ some s.state) × (is_pending s.state ≡ true)) l
unfolding list_pending
list_pending_held t m v = (
  pending_in t m.sessions,
  refl,
  All-pending_in t _ m.sessions
      (All-entries _ m.sessions v.distinct λ k s e due. (rw (v.keyed k s e, e), ground arith)),
)

pub create_fresh :
    (s : Session) (m : Memory)
    → state_of m s.id ≡ none
    → ((create s m).0 ≡ ok tt) × SetsState (state_of m) (state_of (create s m).1) s.id s.state
create_fresh s m h = elim (create_cases s m) [
  | inl (t, p, e) ↦ absurd (ground arith)
  | inr (p, e) ↦ rw e (refl, λ j. ground (arith, lookup-insert s.id j s m.sessions))
]

pub create_taken :
    (s : Session) (m : Memory) {t : State}
    → state_of m s.id ≡ some t
    → create s m ≡ (err session_exists, m)
unfolding create
create_taken s m h = ground arith

pub transition_met :
    (id : String) (from to : State) (u : Option Update) (m : Memory)
    → is_terminal from ≡ false
    → state_of m id ≡ some from
    → ((transition id from to u m).0 ≡ ok tt)
      × SetsState (state_of m) (state_of (transition id from to u m).1) id to
transition_met id from to u m live h = elim (Option-cases (lookup id m.sessions)) [
  | inl absent ↦ absurd (ground arith)
  | inr (s, p) ↦
      rw (transition_passed id from to u m s p (ground arith) live)
        (refl, λ j. ground (arith, lookup-apply_transition id from to u m s j))
]

pub transition_unmet :
    (id : String) (from to : State) (u : Option Update) (m : Memory)
    → is_terminal from ≡ false
    → state_of m id ≢ some from
    → (e : Error) × (transition id from to u m ≡ (err e, m))
transition_unmet id from to u m live h = elim (transition_cases id from to u m) [
  | inl refused ↦ refused
  | inr (s, p, at, _, _) ↦ absurd (h (rw (p, at)))
]

module _ (now : Time) (id : String) (m : Memory) where
  pub consume_confirmed :
      IsValid m
      → state_of m id ≡ some confirmed
      → (s : Session) × ((consume_if_confirmed now id m).0 ≡ ok s)
        × SetsState (state_of m) (state_of (consume_if_confirmed now id m).1) id consumed
  unfolding consume_if_confirmed
  consume_confirmed v h = elim (Option-cases (lookup id m.sessions)) [
    | inl absent ↦ absurd (ground arith)
    | inr (s, p) ↦
        let s' = record s { state = consumed; consumed_at = some now } in
        (
          s',
          ground (arith, state_eq_iff s.state consumed, state_eq_iff s.state confirmed),
          λ j. ground (
            arith,
            lookup-insert id j s' m.sessions,
            state_eq_iff s.state consumed,
            state_eq_iff s.state confirmed,
          ),
        )
  ]

  pub consume_spent :
      IsValid m
      → state_of m id ≡ some consumed
      → consume_if_confirmed now id m ≡ (err already_consumed, m)
  unfolding consume_if_confirmed state_eq
  consume_spent v h = ground arith

  pub consume_absent : state_of m id ≡ none → consume_if_confirmed now id m ≡ (err not_found, m)
  unfolding consume_if_confirmed
  consume_absent h = ground arith

  pub consume_early :
      {t : State}
      → IsValid m
      → state_of m id ≡ some t
      → t ≢ confirmed
      → t ≢ consumed
      → consume_if_confirmed now id m ≡ (err invalid_transition, m)
  unfolding consume_if_confirmed
  consume_early {t} v h p q = ground (arith, state_eq_iff t confirmed, state_eq_iff t consumed)

pub expire_states :
    (t : Time) (m : Memory) (id : String)
    → (state_of (expire_stale t m).1 id ≡ state_of m id)
      ⊎ ((s : State) × (state_of m id ≡ some s)
          × (is_terminal s ≡ false)
          × (state_of (expire_stale t m).1 id ≡ some timeout))
unfolding expire_stale
expire_states t m id = elim (Option-cases (lookup id m.sessions)) [
  | inl absent ↦ inl (ground (arith, lookup-expire_from t id m.sessions 0))
  | inr (s, p) ↦ elim (Bool-cases (is_stale t s)) [
    | inl stale ↦
        inr (s.state, rw p, ground arith, ground (arith, lookup-expire_from t id m.sessions 0))
    | inr fresh ↦ inl (ground (arith, lookup-expire_from t id m.sessions 0))
  ]
]

pub get_absent : (id : String) (m : Memory) → state_of m id ≡ none → get id m ≡ err not_found
unfolding get
get_absent id m h = ground arith

pub session_indexed :
    (id : String) (from to : State) (u : Update) (c : String) (m : Memory)
    → IsValid m
    → is_terminal from ≡ false
    → state_of m id ≡ some from
    → u.checkout_request_id ≡ some c
    → (s : Session) × (get_by_checkout_id c (transition id from to (some u) m).1 ≡ ok s)
      × (s.id ≡ id)
      × (s.state ≡ to)
session_indexed id from to u c m v live at set = elim (Option-cases (lookup id m.sessions)) [
  | inl absent ↦ absurd (ground arith)
  | inr (s, p) ↦ transition_indexed id from to u c m v live p (ground arith) set
]

-- The laws as the manager's theorems take them.
unfoldable pub memory_laws : IsAdapter memory_adapter
memory_laws = record {
  IsValid = IsValid;
  state_of = state_of;
  create-IsValid = create-IsValid;
  transition-IsValid = transition-IsValid;
  consume-IsValid = consume-IsValid;
  expire-IsValid = expire-IsValid;
  get_absent = get_absent;
  get_present = get_present;
  get_by_checkout_held = get_by_checkout_held;
  list_pending_held = list_pending_held;
  create_fresh = create_fresh;
  create_taken = create_taken;
  transition_met = transition_met;
  transition_unmet = transition_unmet;
  consume_confirmed = consume_confirmed;
  consume_spent = consume_spent;
  consume_absent = consume_absent;
  consume_early = consume_early;
  expire_states = expire_states;
  create_unindexed = create_unindexed;
  transition_indexed =
      λ id from to u c m v live at set h. session_indexed id from to u c m v live at set;
}

-- `MemoryAdapter` keeps the laws that the manager relies on, for the states of the records that its map
-- holds and an invariant that the empty store has.
pub memory_adapter-IsAdapter :
    (L : IsAdapter memory_adapter) × (L.IsValid new_memory_adapter)
    × ((m : Memory) (id : String)
        → L.state_of m id ≡ Option.map (λ s. s.state) (lookup id m.sessions))
unfolding memory_laws
memory_adapter-IsAdapter = (memory_laws, new_memory_adapter-IsValid, λ m id. refl)
