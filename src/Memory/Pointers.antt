-- ===== src/Memory/Pointers.antt =====
-- store/memory/memory.go again, with its pointers. A map slot, a session that a caller has, and the
-- pointer fields of a session are addresses in a heap, so that a copy and what it shares with its
-- original are told apart. `Memory.Defs` has the same methods over the values.
pub mod Values
pub mod Spend
pub mod Scans
pub mod Methods
pub mod Callers
pub mod Owners
pub mod Sweeps
pub mod Runs
pub mod Sharing
use mathlib.Core.Option
use malipo.Base.{ℕ, ◌+◌, ◌<◌, String, Bool, not, ◌&&◌, Option, none, some}
use malipo.Base.{List, [], ◌∷◌, if◌then◌else◌, or_else, set_pointer, ◌==◌}
use malipo.Base.Int.{ℤ, ltb_ℤ}
use malipo.Base.Map.{Map, lookup, insert}
use malipo.Base.Values.{map_values, Below, Apart}
use malipo.Store.State.{State, confirmed, consumed, timeout, is_terminal, state_eq}
use malipo.Store.Session.{Session, Update, Time, Bytes}
use malipo.Store.Error.{Result, ok, err}
use malipo.Store.Error.{not_found, session_exists, invalid_transition, already_consumed}
use malipo.Store.Adapter.{is_pending}
use malipo.Memory.Defs.{Memory, index_checkout}
use malipo.Memory.Heap.{
  PointerSession, PointerUpdate, Heap, write, overwrite, alloc, deref, deref_update, read,
  Allocated,
}

pub record PointerMemory : Type 0 where
  pub heap : Heap
  pub sessions : Map ℕ
  pub by_checkout : Map String

-- `NewMemoryAdapter`, beside what is in the heap already.
abbrev pub new_memory_adapter : Heap → PointerMemory
new_memory_adapter h = record { heap = h; sessions = []; by_checkout = [] }

-- `Create`: the map has the address of a copy.
unfoldable pub create : ℕ → PointerMemory → Result (Unit {0}) × PointerMemory
create p m = elim (lookup (m.heap.records p).id m.sessions) [
  | some _ ↦ (err session_exists, m)
  | none ↦ (
    ok tt,
    record m {
      heap = alloc (m.heap.records p) m.heap;
      sessions = insert (m.heap.records p).id m.heap.next_record m.sessions;
    },
  )
]

-- The caller has the address of a copy.
abbrev pub copied : Option ℕ → PointerMemory → Result ℕ × PointerMemory
copied none m = (err not_found, m)
copied (some p) m = (ok m.heap.next_record, record m { heap = alloc (m.heap.records p) m.heap })

-- `Get`
unfoldable pub get : String → PointerMemory → Result ℕ × PointerMemory
get id m = copied (lookup id m.sessions) m

-- `GetByCheckoutID`
unfoldable pub get_by_checkout_id : String → PointerMemory → Result ℕ × PointerMemory
get_by_checkout_id c m = elim (lookup c m.by_checkout) [
  | none ↦ (err not_found, m)
  | some id ↦ copied (lookup id m.sessions) m
]

-- The body of `if u != nil`: the strings are copied, the other three fields point at what the update
-- points at.
abbrev pub write_fields : PointerUpdate → PointerSession → PointerSession
write_fields u s = record s {
  checkout_request_id = or_else u.checkout_request_id s.checkout_request_id;
  merchant_request_id = or_else u.merchant_request_id s.merchant_request_id;
  mpesa_receipt_number = or_else u.mpesa_receipt_number s.mpesa_receipt_number;
  confirmed_amount = set_pointer u.confirmed_amount s.confirmed_amount;
  confirmed_phone = set_pointer u.confirmed_phone s.confirmed_phone;
  consumed_at = set_pointer u.consumed_at s.consumed_at;
}

abbrev pub write_update :
    Option PointerUpdate → PointerSession → Map String → PointerSession × Map String
write_update none s index = (s, index)
write_update (some u) s index = (write_fields u s, index_checkout u.checkout_request_id s.id index)

-- What `Transition` writes, through the pointer `p` of the map slot, once the guards have passed.
unfoldable pub apply_transition : ℕ → State → Option PointerUpdate → PointerMemory → PointerMemory
apply_transition p to u m =
    let (s, index) = write_update u (m.heap.records p) m.by_checkout in
    record m { heap = overwrite p (record s { state = to }) m.heap; by_checkout = index }

-- `Transition`
unfoldable pub transition :
    String
    → State
    → State
    → Option PointerUpdate
    → PointerMemory
    → Result (Unit {0}) × PointerMemory
transition id from to u m = elim (lookup id m.sessions) [
  | none ↦ (err not_found, m)
  | some p ↦
      if is_terminal (m.heap.records p).state
      then (err invalid_transition, m)
      else if not (state_eq (m.heap.records p).state from)
      then (err invalid_transition, m)
      else (ok tt, apply_transition p to u m)
]

-- What `ConsumeIfConfirmed` writes through the pointer of the map slot: the variable `consumedAt` is
-- allocated, and its address is kept.
abbrev pub spend : Time → ℕ → Heap → Heap
spend now p h = record h {
  records =
      write p (record (h.records p) { state = consumed; consumed_at = some h.next_time }) h.records;
  times = write h.next_time now h.times;
  next_time = h.next_time + 1;
}

-- `ConsumeIfConfirmed`; `now` is `time.Now()`.
unfoldable pub consume_if_confirmed : Time → String → PointerMemory → Result ℕ × PointerMemory
consume_if_confirmed now id m = elim (lookup id m.sessions) [
  | none ↦ (err not_found, m)
  | some p ↦
      if state_eq (m.heap.records p).state consumed
      then (err already_consumed, m)
      else if not (state_eq (m.heap.records p).state confirmed)
      then (err invalid_transition, m)
      else copied (some p) (record m { heap = spend now p m.heap })
]

abbrev pub is_stale : Time → PointerSession → Bool
is_stale before s = not (is_terminal s.state) && ltb_ℤ s.expires_at before

-- One turn of the loop of `ExpireStale`, but for its counter.
abbrev pub expire_one : Time → ℕ → (ℕ → PointerSession) → ℕ → PointerSession
expire_one before p records =
    if is_stale before (records p)
    then write p (record (records p) { state = timeout }) records
    else records

-- The loop of `ExpireStale` over the addresses, with its counter.
unfoldable pub expire_from : Time → Map ℕ → (ℕ → PointerSession) → ℕ → (ℕ → PointerSession) × ℕ
expire_from before [] records count = (records, count)
expire_from before ((k, p) ∷ m) records count =
    let count' = if is_stale before (records p) then count + 1 else count in
    expire_from before m (expire_one before p records) count'

-- `ExpireStale`
unfoldable pub expire_stale : Time → PointerMemory → Result ℕ × PointerMemory
expire_stale before m =
    let (records, count) = expire_from before m.sessions m.heap.records 0 in
    (ok count, record m { heap = record m.heap { records = records } })

abbrev pub is_due : Time → PointerSession → Bool
is_due before s = ltb_ℤ s.created_at before && is_pending s.state

-- The loop of `ListPending`: each session that is due is copied.
unfoldable pub pending_in : Time → Map ℕ → Heap → List ℕ × Heap
pending_in before [] h = ([], h)
pending_in before ((k, p) ∷ m) h =
    let due = is_due before (h.records p) in
    let (rest, h') = pending_in before m (if due then alloc (h.records p) h else h) in
    (if due then h.next_record ∷ rest else rest, h')

-- `ListPending`
unfoldable pub list_pending : Time → PointerMemory → Result (List ℕ) × PointerMemory
list_pending before m =
    let (pending, h) = pending_in before m.sessions m.heap in (ok pending, record m { heap = h })

-- The store that the records stand for.
abbrev pub values : PointerMemory → Memory
values m = record { sessions = map_values (read m.heap) m.sessions; by_checkout = m.by_checkout }

-- Each map slot has an address of its own, and every pointer in use has been allocated.
pub record IsValid (m : PointerMemory) : Type 0 where
  pub apart : Apart m.sessions
  pub below : Below m.heap.next_record m.sessions
  pub timed : (p : ℕ) → Allocated m.heap.next_time (m.heap.records p).consumed_at
