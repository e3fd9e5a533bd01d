-- ===== src/Memory/Cleanup.antt =====
-- session/ttl.go over the in-memory adapter: what a tick of the cleanup goroutine leaves.
use malipo.Base.{String, ◌≡◌, refl, ap, inl, inr, true, Option, none, some, List, arith}
use malipo.Base.Int.{ltb_ℤ}
use malipo.Base.Map.{lookup}
use malipo.Base.Holds.{Holds, Holds-replaced, Holds-fresh, Holds-inserted}
use malipo.Store.State.{State, consumed, is_terminal}
use malipo.Store.Session.{Session, Update, Time}
use malipo.Store.Error.{Result, ok}
use malipo.Store.Expiry.{IsResolving}
use malipo.Session.Token.{TokenProvider}
use malipo.Session.Manager.{Config, cleanup_tick}
use malipo.Session.Trace.{Call, run}
use malipo.Session.Trace.Expiry.{tick_resolves}
use malipo.Memory.Defs.{
  Memory, create, write_update, apply_transition, transition, consume_if_confirmed, expire_one,
  expire_stale,
}
use malipo.Memory.Guards.{create_cases, transition_cases, consume_cases}
use malipo.Memory.Sweep.{lookup-expire_from, expire_one-fresh}
use malipo.Memory.Contract.{memory_adapter, state_of}

abbrev pub expiry : Session → Time
expiry s = s.expires_at

module _ (k : String) (x : Time) where
  -- A session is stored with a given expiry.
  abbrev pub HasExpiry : Memory → Type 0
  HasExpiry m = Holds expiry k x m.sessions

  expiry-write_update :
      (u : Option Update) (s : Session) (m : Memory)
      → (write_update u s m).0.expires_at ≡ s.expires_at
  expiry-write_update none s m = refl
  expiry-write_update (some u) s m = refl

  pub create-HasExpiry : (s : Session) (m : Memory) → HasExpiry m → HasExpiry (create s m).1
  create-HasExpiry s m h = elim (create_cases s m) [
    | inl (t, taken, e) ↦ rw e h
    | inr (fresh, e) ↦ rw e (Holds-fresh expiry k x s.id s m.sessions fresh h)
  ]

  pub transition-HasExpiry :
      (id : String) (from to : State) (u : Option Update) (m : Memory)
      → HasExpiry m
      → HasExpiry (transition id from to u m).1
  unfolding apply_transition
  transition-HasExpiry id from to u m h = elim (transition_cases id from to u m) [
    | inl (_, e) ↦ rw e h
    | inr (s, found, _, _, e) ↦ rw e (
        Holds-replaced expiry k x id s (record (write_update u s m).0 { state = to }) m.sessions
          found (expiry-write_update u s m) h)
  ]

  pub consume-HasExpiry :
      (now : Time) (id : String) (m : Memory)
      → HasExpiry m
      → HasExpiry (consume_if_confirmed now id m).1
  consume-HasExpiry now id m h = elim (consume_cases now id m) [
    | inl (_, e) ↦ rw e h
    | inr (s, found, _, e) ↦ rw e (
        Holds-replaced expiry k x id s (record s { state = consumed; consumed_at = some now })
          m.sessions found refl h)
  ]

  pub expire-HasExpiry : (t : Time) (m : Memory) → HasExpiry m → HasExpiry (expire_stale t m).1
  unfolding expire_stale
  expire-HasExpiry t m h = record {
    value = expire_one t h.value;
    found = rw (lookup-expire_from t k m.sessions 0, h.found) refl;
    held = ground (arith, h.held);
  }

  pub expire_found :
      (t : Time) (m : Memory)
      → HasExpiry m
      → ltb_ℤ x t ≡ true
      → (s : State) × (state_of (expire_stale t m).1 k ≡ some s) × (is_terminal s ≡ true)
  unfolding expire_stale
  expire_found t m h late = (
    (expire_one t h.value).state,
    rw (lookup-expire_from t k m.sessions 0, h.found) refl,
    ground (arith, expire_one-fresh t h.value, h.held),
  )

pub created_has :
    (s : Session) (m : Memory) → (create s m).0 ≡ ok tt → HasExpiry s.id s.expires_at (create s m).1
created_has s m done = elim (create_cases s m) [
  | inl (t, taken, e) ↦ absurd (ground (arith, ap (λ (r : Result (Unit {0}) × Memory). r.0) e))
  | inr (fresh, e) ↦ rw e (Holds-inserted expiry s.id s.expires_at s m.sessions refl)
]

-- The in-memory adapter holds instants as they are.
unfoldable pub memory_resolving : IsResolving memory_adapter state_of
memory_resolving = record {
  floor = λ t. t;
  HasExpiry = HasExpiry;
  create_has = λ s m done. created_has s m done;
  create-HasExpiry = λ s {k} {x} m h. create-HasExpiry k x s m h;
  transition-HasExpiry = λ id from to u {k} {x} m h. transition-HasExpiry k x id from to u m h;
  consume-HasExpiry = λ now id {k} {x} m h. consume-HasExpiry k x now id m h;
  expire-HasExpiry = λ t {k} {x} m h. expire-HasExpiry k x t m h;
  expire_resolves = λ t {k} {x} m h late. expire_found k x t m h late;
}

module _ (cfg : Config) (auth : TokenProvider) (now later : Time) (others : Session → List Call)
    (rest : List Call) (m : Memory) where
  -- A tick of the cleanup goroutine over the in-memory adapter resolves every stored session that is past
  -- its expiry at the instant of the expiry pass: it is still stored, and its state is terminal, whatever
  -- the recovery queries answer and whatever atomic calls others make. A session that the recovery pass
  -- has just confirmed is no exception.
  cleanup_tick-resolves :
      (k : String) (s : Session)
      → lookup k m.sessions ≡ some s
      → ltb_ℤ s.expires_at later ≡ true
      → (t : State) × (state_of
            (cleanup_tick memory_adapter cfg auth now later
              (λ s. run memory_adapter (others s))
              (run memory_adapter rest)
              m)
            k
          ≡ some t)
        × (is_terminal t ≡ true)
  unfolding memory_resolving
  cleanup_tick-resolves k s p late =
      tick_resolves memory_adapter state_of memory_resolving k s.expires_at cfg auth others rest now
        later m (record { value = s; found = p; held = refl }) late
