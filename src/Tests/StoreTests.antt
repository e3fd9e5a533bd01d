-- ===== src/Tests/StoreTests.antt =====
-- store/memory/memory.go: the in-memory adapter.
use malipo.Base.{String, str_eq, if◌then◌else◌, ◌≡◌, ◌≢◌, ◌⊎◌, true, false, Option, none, some}
use malipo.Base.Map.{lookup}
use malipo.Store.State.{stk_pushed, confirmed, is_terminal}
use malipo.Base.Int.{pos}
use malipo.Store.Session.{Session, Update}
use malipo.Store.Error.{ok, err, invalid_transition, not_found}
use malipo.Memory.Defs.{Memory, transition}
use malipo.Memory.Written.{IsWritten, IsIndexed}
use malipo.Memory.Guards.{transition_outcomes}
use malipo.Tests.Fixtures.{store_in}

-- The store of the session, and what is left of it.
abbrev held : Memory
held = store_in stk_pushed

abbrev receipt : Option Update
receipt = some (record {
  checkout_request_id = some "ws_9";
  merchant_request_id = none;
  mpesa_receipt_number = some "QK1";
  confirmed_amount = some (pos 100);
  confirmed_phone = none;
  consumed_at = none;
})

abbrev moved : Memory
moved = (transition "s1" stk_pushed confirmed receipt held).1

transition_outcomes_example :
    (((transition "s1" stk_pushed confirmed receipt held).0 ≡ ok tt)
      × (is_terminal stk_pushed ≡ false)
      × ((s : Session) × ((s' : Session) × (lookup "s1" held.sessions ≡ some s)
            × (s.state ≡ stk_pushed)
            × IsWritten receipt confirmed s s'
            × ((j : String)
                → lookup j moved.sessions
                  ≡ (if str_eq "s1" j then some s' else lookup j held.sessions))
            × IsIndexed (some "ws_9") s.id held.by_checkout moved.by_checkout)))
    ⊎ ((transition "s1" stk_pushed confirmed receipt held ≡ (err not_found, held))
        × (lookup "s1" held.sessions ≡ none))
    ⊎ ((transition "s1" stk_pushed confirmed receipt held ≡ (err invalid_transition, held))
        × ((s : Session) × (lookup "s1" held.sessions ≡ some s)
            × ((is_terminal s.state ≡ true) ⊎ (s.state ≢ stk_pushed))))
transition_outcomes_example = transition_outcomes "s1" stk_pushed confirmed receipt held
