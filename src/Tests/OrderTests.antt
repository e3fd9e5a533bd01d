-- ===== src/Tests/OrderTests.antt =====
-- store/memory/memory.go: two orders of the same two sessions.
use mathlib.Core.List.{Permᴰ}
use malipo.Base.{◌≡◌, refl, none, List, [], ◌∷◌}
use malipo.Base.Int.{pos}
use malipo.Base.Map.{lookup}
use malipo.Store.State.{stk_pushed, awaiting_pin, confirmed}
use malipo.Store.Session.{Session}
use malipo.Store.Error.{ok}
use malipo.Memory.Defs.{
  Memory, create, get, get_by_checkout_id, transition, consume_if_confirmed, expire_stale,
  list_pending,
}
use malipo.Memory.Order.{SameStore, SameAnswer, methods-SameStore}
use malipo.Tests.Fixtures.{session_in}

abbrev second : Session
second = record (session_in awaiting_pin) { id = "s2"; checkout_request_id = "ws_2" }

abbrev one : Memory
one = record {
  sessions = ("s1", session_in stk_pushed) ∷ ("s2", second) ∷ [];
  by_checkout = ("ws_1", "s1") ∷ ("ws_2", "s2") ∷ [];
}

abbrev other : Memory
other = record {
  sessions = ("s2", second) ∷ ("s1", session_in stk_pushed) ∷ [];
  by_checkout = ("ws_2", "s2") ∷ ("ws_1", "s1") ∷ [];
}

one-SameStore : SameStore one other
unfolding lookup
one-SameStore = record {
  sessions = record { entries = Permᴰ.swap refl refl; distinct = (refl, (refl, tt)) };
  by_checkout = record { entries = Permᴰ.swap refl refl; distinct = (refl, (refl, tt)) };
}

methods-SameStore_example :
    SameAnswer (create second one) (create second other)
    × (get "s1" one ≡ get "s1" other)
    × (get_by_checkout_id "ws_2" one ≡ get_by_checkout_id "ws_2" other)
    × SameAnswer
        (transition "s1" stk_pushed confirmed none one)
        (transition "s1" stk_pushed confirmed none other)
    × SameAnswer (consume_if_confirmed (pos 50) "s1" one) (consume_if_confirmed (pos 50) "s1" other)
    × SameAnswer (expire_stale (pos 200) one) (expire_stale (pos 200) other)
    × ((l k : List Session) × (list_pending (pos 200) one ≡ ok l)
        × (list_pending (pos 200) other ≡ ok k)
        × Permᴰ l k)
methods-SameStore_example =
    methods-SameStore one other second "s1" "ws_2" stk_pushed confirmed none (pos 50) (pos 200)
      one-SameStore
