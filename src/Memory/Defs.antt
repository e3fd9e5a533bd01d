-- ===== src/Memory/Defs.antt =====
-- store/memory/memory.go: `MemoryAdapter`. Each method runs under the lock from its first line to its
-- return, so it is one step from a store to a store. A map slot owns its record: `Create` stores a
-- copy, and every reader is given one, so a slot is modelled by the record that it points at.
use malipo.Base.{ℕ, ◌+◌, String, Bool, not, ◌&&◌, Option, none, some}
use malipo.Base.{List, [], ◌∷◌, if◌then◌else◌, or_else, set_pointer}
use malipo.Base.Int.{ltb_ℤ}
use malipo.Base.Map.{Map, lookup, insert}
use malipo.Store.State.{State, confirmed, consumed, timeout, is_terminal, state_eq}
use malipo.Store.Session.{Session, Update, Time}
use malipo.Store.Error.{Result, ok, err}
use malipo.Store.Error.{not_found, session_exists, invalid_transition, already_consumed}
use malipo.Store.Adapter.{is_pending}

pub record Memory : Type 0 where
  pub sessions : Map Session
  pub by_checkout : Map String

abbrev pub new_memory_adapter : Memory
new_memory_adapter = record { sessions = []; by_checkout = [] }

-- `Create`
unfoldable pub create : Session → Memory → Result (Unit {0}) × Memory
create s m = elim (lookup s.id m.sessions) [
  | some _ ↦ (err session_exists, m)
  | none ↦ (ok tt, record m { sessions = insert s.id s m.sessions })
]

abbrev pub found : Option Session → Result Session
found none = err not_found
found (some s) = ok s

-- `Get`
unfoldable pub get : String → Memory → Result Session
get id m = found (lookup id m.sessions)

-- `GetByCheckoutID`: two lookups.
unfoldable pub get_by_checkout_id : String → Memory → Result Session
get_by_checkout_id c m = elim (lookup c m.by_checkout) [
  | none ↦ err not_found
  | some id ↦ found (lookup id m.sessions)
]

-- The body of `if u != nil`: each set field is written, each nil field leaves the old value.
abbrev pub write_fields : Update → Session → Session
write_fields u s = record s {
  checkout_request_id = or_else u.checkout_request_id s.checkout_request_id;
  merchant_request_id = or_else u.merchant_request_id s.merchant_request_id;
  mpesa_receipt_number = or_else u.mpesa_receipt_number s.mpesa_receipt_number;
  confirmed_amount = set_pointer u.confirmed_amount s.confirmed_amount;
  confirmed_phone = set_pointer u.confirmed_phone s.confirmed_phone;
  consumed_at = set_pointer u.consumed_at s.consumed_at;
}

-- The same block's write to the secondary index.
abbrev pub index_checkout : Option String → String → Map String → Map String
index_checkout none id index = index
index_checkout (some c) id index = insert c id index

abbrev pub write_update : Option Update → Session → Memory → Session × Map String
write_update none s m = (s, m.by_checkout)
write_update (some u) s m =
    (write_fields u s, index_checkout u.checkout_request_id s.id m.by_checkout)

-- What `Transition` writes once the guards have passed.
unfoldable pub apply_transition : String → State → Option Update → Session → Memory → Memory
apply_transition id to u s m =
    let (s', index) = write_update u s m in
    record { sessions = insert id (record s' { state = to }) m.sessions; by_checkout = index }

-- `Transition`: three guards, then the writes.
unfoldable pub transition :
    String → State → State → Option Update → Memory → Result (Unit {0}) × Memory
transition id from to u m = elim (lookup id m.sessions) [
  | none ↦ (err not_found, m)
  | some s ↦
      if is_terminal s.state
      then (err invalid_transition, m)
      else if not (state_eq s.state from)
      then (err invalid_transition, m)
      else (ok tt, apply_transition id to u s m)
]

-- `ConsumeIfConfirmed`; `now` is `time.Now()`.
unfoldable pub consume_if_confirmed : Time → String → Memory → Result Session × Memory
consume_if_confirmed now id m = elim (lookup id m.sessions) [
  | none ↦ (err not_found, m)
  | some s ↦
      if state_eq s.state consumed
      then (err already_consumed, m)
      else if not (state_eq s.state confirmed)
      then (err invalid_transition, m)
      else let s' : Session = record s { state = consumed; consumed_at = some now } in
        (ok s', record m { sessions = insert id s' m.sessions })
]

abbrev pub is_stale : Time → Session → Bool
is_stale before s = not (is_terminal s.state) && ltb_ℤ s.expires_at before

abbrev pub expire_one : Time → Session → Session
expire_one before s = if is_stale before s then record s { state = timeout } else s

-- The loop of `ExpireStale` over the sessions, with its counter.
unfoldable pub expire_from : Time → Map Session → ℕ → Map Session × ℕ
expire_from before [] count = ([], count)
expire_from before ((k, s) ∷ m) count =
    let (m', total) = expire_from before m (if is_stale before s then count + 1 else count) in
    ((k, expire_one before s) ∷ m', total)

-- `ExpireStale`
unfoldable pub expire_stale : Time → Memory → Result ℕ × Memory
expire_stale before m =
    let (sessions, count) = expire_from before m.sessions 0 in
    (ok count, record m { sessions = sessions })

abbrev pub is_due : Time → Session → Bool
is_due before s = ltb_ℤ s.created_at before && is_pending s.state

-- The loop of `ListPending`.
unfoldable pub pending_in : Time → Map Session → List Session
pending_in before [] = []
pending_in before ((k, s) ∷ m) =
    let rest = pending_in before m in if is_due before s then s ∷ rest else rest

-- `ListPending`
unfoldable pub list_pending : Time → Memory → Result (List Session)
list_pending before m = ok (pending_in before m.sessions)
