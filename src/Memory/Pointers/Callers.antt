-- ===== src/Memory/Pointers/Callers.antt =====
-- store/memory/memory.go and the rest of the program: the callers of `MemoryAdapter` have the addresses of
-- sessions, those that they allocated and those that the methods returned, and may write to them.
use mathlib.Core.Option
use mathlib.Core.List.{Memᴰ}
use malipo.Base.{ℕ, ◌<◌, String, Option, none, some, List, [], ◌∷◌, ◌++◌, All}
use malipo.Base.Values.{Without}
use malipo.Store.State.{State}
use malipo.Store.Session.{Session, Update, Time}
use malipo.Store.Error.{Result, ok, err}
use malipo.Memory.Defs as Plain
use malipo.Memory.Heap.{
  PointerSession, PointerUpdate, Allocated, alloc, overwrite, read, deref_update,
}
use malipo.Memory.Pointers.{
  PointerMemory, IsValid, create, get, get_by_checkout_id, transition, consume_if_confirmed,
  expire_stale, list_pending,
}

-- The store, and the addresses of sessions that its callers have.
pub record World : Type 0 where
  pub memory : PointerMemory
  pub own : List ℕ

-- What a method returned goes to its caller.
abbrev pub given : Result ℕ × PointerMemory → List ℕ → World
given (ok p, m) own = record { memory = m; own = p ∷ own }
given (err e, m) own = record { memory = m; own = own }

abbrev pub given_all : Result (List ℕ) × PointerMemory → List ℕ → World
given_all (ok l, m) own = record { memory = m; own = l ++ own }
given_all (err e, m) own = record { memory = m; own = own }

-- The time pointer of an update, if there is one, has been allocated.
abbrev pub AllocatedUpdate : ℕ → Option PointerUpdate → Type 0
AllocatedUpdate next none = Unit
AllocatedUpdate next (some u) = Allocated next u.consumed_at

-- A call of a method that writes, with its arguments as values.
pub data Call : Type 0 where
  creation : Session → Call
  move : String → State → State → Option Update → Call
  consumption : Time → String → Call
  expiry : Time → Call

-- What the calls do to a store of values.
abbrev pub perform : Call → Plain.Memory → Plain.Memory
perform (creation s) m = (Plain.create s m).1
perform (move id from to u) m = (Plain.transition id from to u m).1
perform (consumption now id) m = (Plain.consume_if_confirmed now id m).1
perform (expiry before) m = (Plain.expire_stale before m).1

abbrev pub perform_all : List Call → Plain.Memory → Plain.Memory
perform_all [] m = m
perform_all (c ∷ calls) m = perform_all calls (perform c m)

abbrev pub calls_of : Option Call → List Call
calls_of none = []
calls_of (some c) = c ∷ []

-- A caller allocates a session, writes to one that it has, or calls a method. Beside the two worlds
-- stands the call, if it is of a method that writes.
pub data Step : World → Option Call → World → Type 0 where
  allocates :
      {w : World} (s : PointerSession)
      → Allocated w.memory.heap.next_time s.consumed_at
      → Step w none (record {
        memory = record w.memory { heap = alloc s w.memory.heap };
        own = w.memory.heap.next_record ∷ w.own;
      })
  writes :
      {w : World} {p : ℕ} (s : PointerSession)
      → Memᴰ p w.own
      → Allocated w.memory.heap.next_time s.consumed_at
      → Step w none (record w { memory = record w.memory { heap = overwrite p s w.memory.heap } })
  creates :
      {w : World} {p : ℕ}
      → Memᴰ p w.own
      → Step w
          (some (creation (read w.memory.heap p)))
          (record w { memory = (create p w.memory).1 })
  gets : {w : World} (id : String) → Step w none (given (get id w.memory) w.own)
  finds : {w : World} (c : String) → Step w none (given (get_by_checkout_id c w.memory) w.own)
  transitions :
      {w : World} (id : String) (from to : State) (u : Option PointerUpdate)
      → AllocatedUpdate w.memory.heap.next_time u
      → Step w
          (some (move id from to (Option.map (deref_update w.memory.heap) u)))
          (record w { memory = (transition id from to u w.memory).1 })
  consumes :
      {w : World} (now : Time) (id : String)
      → Step w (some (consumption now id)) (given (consume_if_confirmed now id w.memory) w.own)
  expires :
      {w : World} (before : Time)
      → Step w (some (expiry before)) (record w { memory = (expire_stale before w.memory).1 })
  lists : {w : World} (before : Time) → Step w none (given_all (list_pending before w.memory) w.own)

pub data Reaches : World → List Call → World → Type 0 where
  done : {w : World} → Reaches w [] w
  after :
      {u v w : World} {c : Option Call} {calls : List Call}
      → Step u c v
      → Reaches v calls w
      → Reaches u (calls_of c ++ calls) w

-- An address that is allocated, and that is not one of a map slot.
abbrev pub Owned : PointerMemory → ℕ → Type 0
Owned m p = (p < m.heap.next_record) × Without p m.sessions

-- No session that a caller has is one of a map slot.
pub record IsApart (w : World) : Type 0 where
  pub valid : IsValid w.memory
  pub owned : All (Owned w.memory) w.own
