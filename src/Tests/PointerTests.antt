-- ===== src/Tests/PointerTests.antt =====
-- store/memory/memory.go through its pointers: a caller that forges the copies it is given.
use mathlib.Core.List.{Memᴰ}
use malipo.Base.{String, ◌≡◌, refl, none, some, List, [], ◌∷◌}
use malipo.Base.Int.{pos}
use malipo.Base.Lists.{codes}
use malipo.Base.Map.{lookup, insert}
use malipo.Store.State.{State, created, confirmed, consumed, timeout}
use malipo.Store.Error.{ok}
use malipo.Memory.Defs as Plain
use malipo.Memory.Contract.{state_of}
use malipo.Memory.Heap.{PointerSession, Heap, alloc, overwrite, read}
use malipo.Memory.Pointers.{
  PointerMemory, IsValid, new_memory_adapter, values, create, get, get_by_checkout_id, transition,
  consume_if_confirmed, expire_stale, list_pending,
}
use malipo.Memory.Pointers.Callers.{
  World, given, Call, creation, perform_all, Reaches, done, after, allocates, writes, creates, gets,
  IsApart,
}
use malipo.Memory.Pointers.Runs.{Reaches-perform, new_memory_adapter-IsApart}
use malipo.Memory.Pointers.Sharing.{write_amount, get_shares}
use malipo.Memory.Pointers.Values.{on_values, on_read}
use malipo.Memory.Pointers.Scans.{on_list}
use malipo.Memory.Pointers.Methods.{methods-values}

abbrev record_in : State → PointerSession
record_in t = record {
  id = "s1";
  state = t;
  phone = codes "+254712345678";
  amount = pos 100;
  currency = "KES";
  shortcode = "174379";
  checkout_request_id = "ws_1";
  merchant_request_id = "m_1";
  mpesa_receipt_number = "";
  confirmed_amount = some 0;
  confirmed_phone = none;
  created_at = pos 10;
  expires_at = pos 100;
  consumed_at = none;
}

-- Nothing is allocated.
abbrev bare : Heap
bare = record {
  records = λ p. record_in created;
  next_record = 0;
  amounts = λ a. pos 100;
  phones = λ a. [];
  times = λ a. pos 0;
  next_time = 0;
}

abbrev start : World
start = record { memory = new_memory_adapter bare; own = [] }

start-IsApart : IsApart start
start-IsApart = new_memory_adapter-IsApart bare (λ p. tt)

-- A caller allocates a session, stores it, gets a copy, and writes to the copy.
abbrev allocated : World
allocated = record {
  memory = record start.memory { heap = alloc (record_in confirmed) bare };
  own = 0 ∷ [];
}

abbrev stored : World
stored = record allocated { memory = (create 0 allocated.memory).1 }

abbrev gotten : World
gotten = given (get "s1" stored.memory) stored.own

abbrev forged : World
forged = record gotten {
  memory = record gotten.memory { heap = overwrite 2 (record_in timeout) gotten.memory.heap };
}

abbrev calls : List Call
calls = creation (read allocated.memory.heap 0) ∷ []

storing : Reaches start calls stored
storing = after (allocates (record_in confirmed) tt) (after (creates (Memᴰ.head refl)) done)

forging : Reaches start calls forged
unfolding create get lookup insert
forging = after (allocates (record_in confirmed) tt) (
    after (creates (Memᴰ.head refl))
      (after (gets "s1") (after (writes (record_in timeout) (Memᴰ.head refl) tt) done)))

Reaches-perform_example :
    IsApart forged × (values forged.memory ≡ perform_all calls (values start.memory))
Reaches-perform_example = Reaches-perform forging start-IsApart

-- The stored session is confirmed still.
forged_state : state_of (values forged.memory) "s1" ≡ some confirmed
unfolding create get lookup insert
forged_state = refl

stored-IsValid : IsValid stored.memory
stored-IsValid = (Reaches-perform storing start-IsApart).0.valid

get_shares_example :
    (Plain.get "s1" (values (write_amount 0 (pos 5) (get "s1" stored.memory).1))
      ≡ ok (record (read (get "s1" stored.memory).1.heap 2) { confirmed_amount = some (pos 5) }))
    × ((j : String)
        → state_of (values (write_amount 0 (pos 5) (get "s1" stored.memory).1)) j
          ≡ state_of (values stored.memory) j)
unfolding create get lookup insert
get_shares_example = get_shares "s1" stored.memory 0 2 (pos 5) stored-IsValid refl refl

abbrev held : PointerMemory
held = stored.memory

methods-values_example :
    (on_values (create 0 held) ≡ Plain.create (read held.heap 0) (values held))
    × (on_read (get "s1" held) ≡ (Plain.get "s1" (values held), values held))
    × (on_read (get_by_checkout_id "ws_1" held)
        ≡ (Plain.get_by_checkout_id "ws_1" (values held), values held))
    × (on_values (transition "s1" confirmed consumed none held)
        ≡ Plain.transition "s1" confirmed consumed none (values held))
    × (on_read (consume_if_confirmed (pos 50) "s1" held)
        ≡ Plain.consume_if_confirmed (pos 50) "s1" (values held))
    × (on_values (expire_stale (pos 200) held) ≡ Plain.expire_stale (pos 200) (values held))
    × (on_list (list_pending (pos 200) held)
        ≡ (Plain.list_pending (pos 200) (values held), values held))
methods-values_example =
    methods-values held 0 "s1" "ws_1" confirmed consumed none (pos 50) (pos 200) stored-IsValid
