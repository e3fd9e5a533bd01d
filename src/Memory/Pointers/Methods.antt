-- ===== src/Memory/Pointers/Methods.antt =====
-- store/memory/memory.go: the seven methods through their pointers beside those over values.
use mathlib.Core.Option
use malipo.Base.{ℕ, String, ◌≡◌, Option}
use malipo.Store.State.{State}
use malipo.Store.Session.{Time}
use malipo.Memory.Defs as Plain
use malipo.Memory.Heap.{PointerUpdate, deref_update, read}
use malipo.Memory.Pointers.{
  PointerMemory, IsValid, values, create, get, get_by_checkout_id, transition, consume_if_confirmed,
  expire_stale, list_pending,
}
use malipo.Memory.Pointers.Values.{
  on_values, on_read, create-values, get-values, get_by_checkout-values, transition-values,
}
use malipo.Memory.Pointers.Spend.{consume-values}
use malipo.Memory.Pointers.Scans.{on_list, expire-values, list_pending-values}

-- On a store whose map slots have addresses of their own and whose pointers have been allocated, and for
-- any arguments, each of the seven
-- methods does through its pointers what the method over values does to the values: it returns the
-- same error or the same number, the addresses that it returns hold the sessions that the method
-- over values returns, and the values that it leaves are the same; the three readers leave the
-- values as they were.
pub methods-values :
    (m : PointerMemory) (p : ℕ) (id c : String) (from to : State) (u : Option PointerUpdate)
    (now before : Time)
    → IsValid m
    → (on_values (create p m) ≡ Plain.create (read m.heap p) (values m))
      × (on_read (get id m) ≡ (Plain.get id (values m), values m))
      × (on_read (get_by_checkout_id c m) ≡ (Plain.get_by_checkout_id c (values m), values m))
      × (on_values (transition id from to u m)
          ≡ Plain.transition id from to (Option.map (deref_update m.heap) u) (values m))
      × (on_read (consume_if_confirmed now id m) ≡ Plain.consume_if_confirmed now id (values m))
      × (on_values (expire_stale before m) ≡ Plain.expire_stale before (values m))
      × (on_list (list_pending before m) ≡ (Plain.list_pending before (values m), values m))
methods-values m p id c from to u now before v = (
  create-values p m v,
  get-values id m v,
  get_by_checkout-values c m v,
  transition-values id from to u m v,
  consume-values now id m v,
  expire-values before m v,
  list_pending-values before m v,
)
