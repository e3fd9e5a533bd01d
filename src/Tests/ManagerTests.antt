-- ===== src/Tests/ManagerTests.antt =====
-- session/manager.go and session/ttl.go, over the in-memory adapter.
use malipo.Base.{
  arith, String, ◌≢◌, ◌↔◌, inl, eq_iff, ◌+◌, ◌≤◌, ◌≡◌, refl, none, some, List, [], ◌∷◌,
}
use malipo.Base.Int.{pos, ◌-ℤ◌}
use malipo.Base.Map.{lookup, insert}
use malipo.Store.State.{created, stk_pushed, confirmed, cancelled, is_terminal, state_eq}
use malipo.Store.Error.{ok}
use malipo.Store.Adapter.{SetsState}
use malipo.Memory.Defs.{Memory, create}
use malipo.Memory.Defs.{
  list_pending, pending_in, apply_transition, get_by_checkout_id, transition, consume_if_confirmed,
}
use malipo.Memory.Contract.{memory_adapter, memory_laws, state_of}
use malipo.Session.Machine.{stk_accepted, callback_success, next_state}
use malipo.Session.Manager.Requests.{GoesWell, initiate_payment_ok_iff}
use malipo.Session.Phone.{normalize_phone}
use malipo.Session.Manager.{Initiated, create_and_push, new_session, push_and_record}
use malipo.Session.Manager.{initiate_payment, handle_callback, run_recovery}
use malipo.Session.Manager.Initiate.{Settles, initiate_payment-Settles}
use malipo.Session.Manager.Resolve.{callback_outcome, query_outcome, handle_callback_pending}
use malipo.Session.Trace.{Call, fire, consume, expire, perform, run, releases_in}
use malipo.Session.Manager.Recovery.{run_recovery_moves}
use malipo.Session.Trace.Safe.{safe}
use malipo.Session.Trace.Release.{spent, releases_once, terminal_stays}
use malipo.Tests.Fixtures.{session_in, store_in, store_in-IsValid, config, payment, accepting}

-- A payment that succeeds, and two requests that race to spend it.
abbrev payment_calls : List Call
payment_calls =
    fire "s1" created stk_accepted none
    ∷ fire "s1" stk_pushed callback_success none
    ∷ consume (pos 50) "s1"
    ∷ consume (pos 51) "s1"
    ∷ expire (pos 200)
    ∷ []

-- One of the two is served.
released_once : releases_in memory_adapter "s1" payment_calls (store_in created) ≡ 1
unfolding releases_in perform malipo.Session.Manager.transition next_state transition
    consume_if_confirmed lookup is_terminal state_eq apply_transition insert
released_once = refl

releases_once_example :
    (releases_in memory_adapter "s1" payment_calls (store_in created)
        + spent (state_of (store_in created) "s1")
      ≤ spent (state_of (run memory_adapter payment_calls (store_in created)) "s1"))
    × (spent (state_of (run memory_adapter payment_calls (store_in created)) "s1") ≤ 1)
unfolding memory_laws
releases_once_example =
    releases_once memory_adapter (safe memory_adapter memory_laws) payment_calls (store_in created)
      "s1" (store_in-IsValid created)

terminal_stays_example :
    state_of (run memory_adapter payment_calls (store_in cancelled)) "s1" ≡ some cancelled
unfolding memory_laws lookup is_terminal
terminal_stays_example =
    terminal_stays memory_adapter (safe memory_adapter memory_laws) payment_calls
      (store_in cancelled) "s1" cancelled (store_in-IsValid cancelled) refl refl

initiate_payment-Settles_example :
    let out =
      initiate_payment memory_adapter config accepting payment "s2"
        (pos 20)
        (λ m. m)
        (store_in confirmed) in
    Settles memory_adapter memory_laws config accepting
      (store_in confirmed)
      "s2"
      out.result
      out.db
      out.timer
unfolding memory_laws
initiate_payment-Settles_example =
    initiate_payment-Settles memory_adapter memory_laws config accepting payment "s2" (pos 20)
      (λ m. m) (store_in confirmed)

abbrev in_store : Memory
in_store = store_in confirmed

abbrev initiated : Initiated memory_adapter
initiated = initiate_payment memory_adapter config accepting payment "s2" (pos 20) (λ m. m) in_store

abbrev s2 : String
s2 = "s2"

initiate_payment_ok_iff_example : ((initiated.result ≡ ok s2) × (initiated.db ≡ initiated.db)) ↔ (
    (s2 ≡ s2)
    × GoesWell memory_adapter config accepting payment s2 (pos 20) (λ m. m) in_store initiated.db)
initiate_payment_ok_iff_example =
    initiate_payment_ok_iff memory_adapter config accepting payment "s2" (pos 20) (λ m. m) in_store
      s2 initiated.db

-- The payment does go well.
payment-GoesWell :
    GoesWell memory_adapter config accepting payment s2 (pos 20) (λ m. m) in_store initiated.db
unfolding initiate_payment normalize_phone create_and_push create lookup new_session push_and_record
    malipo.Session.Manager.transition next_state transition insert is_terminal state_eq
payment-GoesWell = (initiate_payment_ok_iff_example.0 (refl, refl)).1

handle_callback_pending_example :
    let out =
      handle_callback memory_adapter "ws_1" (pos 1032) none (λ m. m) (store_in stk_pushed) in
    (out.0 ≡ ok tt)
    × SetsState (state_of (store_in stk_pushed)) (state_of out.1) "s1" (callback_outcome (pos 1032))
unfolding memory_laws lookup get_by_checkout_id state_eq
handle_callback_pending_example =
    handle_callback_pending memory_adapter memory_laws "ws_1" (pos 1032) none (λ m. m)
      (store_in stk_pushed) (session_in stk_pushed) refl refl refl

abbrev checkout : String
checkout = (session_in stk_pushed).checkout_request_id

named : checkout ≢ ""
named h = ground (arith, eq_iff checkout "")

-- A session whose callback was lost.
run_recovery_moves_example :
    state_of
      (run_recovery memory_adapter config accepting (pos 200) (λ s m. m) (store_in stk_pushed))
      "s1"
    ≡ some (query_outcome "0")
unfolding memory_laws lookup list_pending pending_in state_eq ◌-ℤ◌
run_recovery_moves_example =
    run_recovery_moves memory_adapter memory_laws config accepting (λ s m. m) "s1" "0" stk_pushed
      (pos 200) (store_in stk_pushed) (session_in stk_pushed ∷ []) (λ s m. refl)
      (store_in-IsValid stk_pushed) refl refl refl (inl refl) ((λ own. (named, ("done", refl))), tt)
