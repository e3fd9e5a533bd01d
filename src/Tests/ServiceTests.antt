-- ===== src/Tests/ServiceTests.antt =====
-- The running program: malipo.go's parts over the in-memory adapter and over SQLite.
use malipo.Base.{
  inl, true, ◌≢◌, ◌+◌, ◌≤◌, String, ◌≡◌, refl, Option, none, some, List, [], ◌∷◌, arith, eq_iff,
}
use malipo.Base.Int.{pos}
use malipo.Base.Lists.{codes}
use malipo.Base.Map.{lookup}
use malipo.Store.State.{State, is_terminal, confirmed, stk_pushed}
use malipo.Store.Session.{Bytes}
use malipo.Store.Error.{Result, ok}
use malipo.Memory.Contract.{memory_adapter, memory_laws}
use malipo.Sqlite.Defs.{Table}
use malipo.Sqlite.Invariant.{empty-IsValid}
use malipo.Sqlite.Contract.{sqlite_adapter, sqlite_laws}
use malipo.Session.Phone.{normalize_phone}
use malipo.Session.Trace.Safe.{safe}
use malipo.Session.Trace.{consume, run}
use malipo.Session.Trace.Release.{spent}
use malipo.X402.{served, serve_gated}
use malipo.Callback.{StkCallback, CallbackRequest, serve_callback}
use malipo.Base.Int.{◌-ℤ◌}
use malipo.Wiring.Service.Resolved.{payment_resolves}
use malipo.Sqlite.Cleanup.{sqlite_resolving}
use malipo.Session.Manager.{new_session, run_recovery, initiate_payment, cleanup_tick}
use malipo.Wiring.Service.{after_all, Step, gated, called_back, timed_out, ticked, served_in}
use malipo.Wiring.Service.Once.{served_once}
use malipo.Wiring.Service.Payment.{payment_served}
use malipo.Wiring.Service.Reports.{served_needs_report}
use malipo.Session.Token.{TokenProvider}
use malipo.Tests.Fixtures.{store_in, store_in-IsValid, accepting, payment}
use malipo.Tests.CallbackTests.{floats}
use malipo.Tests.SqliteTests.{texts, table_in, table_in-IsValid}
use malipo.Tests.AdapterTests.{lossy}
use malipo.Sqlite.Reads.{row_state}
use malipo.Sqlite.Flaky.{Connection, flaky_adapter, flaky_laws}
use malipo.Tests.WiringTests.{accepting_daraja, credentials}
use malipo.Auth.Daraja.{provider}
use malipo.Tests.GateTests.{gate, marshal, request_with}

abbrev paid : StkCallback floats
paid = record {
  merchant_request_id = "m_2";
  checkout_request_id = "ws_2";
  result_code = pos 0;
  result_desc = "ok";
  callback_metadata = none;
}

abbrev decode : Bytes → Option (StkCallback floats)
decode b = some paid

abbrev post : CallbackRequest floats
post = record { method = "POST"; body = codes "body" }

-- Two requests with the same session ID, with a consumption by another goroutine within the second.
abbrev steps : List (Step floats)
steps =
    gated accepting (request_with "s1") "s2" (pos 50) []
    ∷ called_back post []
    ∷ timed_out "s1"
    ∷ gated accepting (request_with "s1") "s3" (pos 60) (consume (pos 60) "s1" ∷ [])
    ∷ ticked accepting (pos 61) (pos 62) (λ s. []) []
    ∷ []

abbrev connection : Connection texts
connection = record { table = table_in confirmed; count = 0 }

-- Over a driver that loses the second write.
served_once_example :
    served_in (flaky_adapter texts lossy) floats decode marshal gate "s1" steps connection
      + spent (row_state texts (table_in confirmed) "s1")
    ≤ 1
unfolding flaky_laws
served_once_example =
    served_once (flaky_adapter texts lossy) (flaky_laws texts lossy) floats decode marshal gate "s1"
      steps connection table_in-IsValid

abbrev empty_table : Table texts
empty_table = []

-- The token provider of a Daraja that accepts every push, with an empty cache.
abbrev pub daraja : TokenProvider
daraja = provider accepting_daraja credentials (λ c. c) (record { token = ""; expires_at = pos 0 })

abbrev pub secret : String
secret = "secret"

pub secret_set : secret ≢ ""
secret_set h = ground (arith, eq_iff secret "")

payment_served_example :
    let db1 =
      (serve_gated
        (sqlite_adapter texts)
        marshal
        gate
        daraja
        (request_with "")
        "s2"
        (pos 50)
        (λ t. t)
        empty_table).1 in
    let db2 = (serve_callback floats (sqlite_adapter texts) decode post (λ t. t) db1).1 in
    (serve_gated
      (sqlite_adapter texts)
      marshal
      gate
      daraja
      (request_with "s2")
      ""
      (pos 60)
      (λ t. t)
      db2).0
    ≡ served
unfolding sqlite_laws lookup malipo.Sqlite.Defs.get_by_checkout_id malipo.Sqlite.Defs.find_checkout
    normalize_phone provider malipo.Auth.Daraja.access_token malipo.Auth.get_access_token
    malipo.Auth.refresh malipo.Auth.store_token malipo.Auth.Daraja.fetch_token
    malipo.Auth.generate_password malipo.Auth.Daraja.send_stk_push
payment_served_example =
    payment_served (sqlite_adapter texts) (sqlite_laws texts) floats decode marshal gate daraja
      daraja "s2" (pos 50) (pos 60) (request_with "") (request_with "s2") (codes "0712345678")
      (codes "+254712345678") "token" "ws_2" "m_2" post paid empty_table (empty-IsValid texts)
      (λ h. ground (arith, eq_iff "s2" "")) refl refl (λ h. ground (arith, eq_iff "ws_2" "")) refl
      refl refl refl secret_set refl refl refl refl refl refl

-- A service that answers a query with a failure, and a callback of a payer who cancels.
abbrev declining : TokenProvider
declining = record accepting {
  query_stk_status = λ shortcode passkey checkout_id. ok ("1032", "cancelled");
}

abbrev cancelling : Bytes → Option (StkCallback floats)
cancelling b = some (record paid { checkout_request_id = "ws_1"; result_code = pos 1032 })

abbrev unpaid_steps : List (Step floats)
unpaid_steps =
    gated accepting (request_with "s1") "s2" (pos 50) []
    ∷ ticked declining (pos 80) (pos 81) (λ s. []) []
    ∷ called_back post (consume (pos 85) "s1" ∷ [])
    ∷ gated accepting (request_with "s1") "s3" (pos 90) []
    ∷ timed_out "s1"
    ∷ []

abbrev declined : Result (String × String)
declined = ok ("1032", "cancelled")

declined_code : (code desc : String) → declined ≡ ok (code, desc) → code ≢ "0"
declined_code code desc h = ground (arith, eq_iff "1032" "0")

cancelled_code : (cb : StkCallback floats) → cancelling post.body ≡ some cb → cb.result_code ≢ pos 0
cancelled_code cb h = ground arith

served_needs_report_example :
    served_in memory_adapter floats cancelling marshal gate "s1" unpaid_steps (store_in stk_pushed)
    ≡ 0
unfolding memory_laws lookup
served_needs_report_example =
    served_needs_report memory_adapter (safe memory_adapter memory_laws) floats cancelling marshal
      gate "s1" unpaid_steps (store_in stk_pushed) (store_in-IsValid stk_pushed) refl
      (tt, ((λ s. tt, tt, λ c. declined_code), (((refl, tt), cancelled_code), (tt, (tt, tt)))))

-- The instant and the lifetime of the payment, in nanoseconds, and two seconds.
payment_resolves_example :
    let out =
      initiate_payment
        (sqlite_adapter texts)
        gate.manager
        accepting
        payment
        "s2"
        (pos 20)
        (run (sqlite_adapter texts) [])
        empty_table in
    (t : State) × (row_state texts
        (cleanup_tick
          (sqlite_adapter texts)
          gate.manager
          declining
          (pos 80)
          (pos 2000000000)
          (λ s. run (sqlite_adapter texts) (consume (pos 85) s.id ∷ []))
          (run (sqlite_adapter texts) [])
          (after_all (sqlite_adapter texts) floats decode marshal gate steps out.db))
        "s2"
      ≡ some t)
    × (is_terminal t ≡ true)
unfolding sqlite_resolving run normalize_phone initiate_payment
    malipo.Session.Manager.create_and_push malipo.Sqlite.Defs.create lookup
    malipo.Session.Manager.push_and_record malipo.Session.Manager.transition
    malipo.Session.Machine.next_state malipo.Sqlite.Defs.transition malipo.Sqlite.Defs.update_row
    malipo.Base.Map.insert malipo.Session.Manager.new_session malipo.Store.State.state_eq
    malipo.Sqlite.Defs.new_row malipo.Sqlite.Clock.floor_second malipo.Base.Int.◌+ℤ◌
payment_resolves_example =
    payment_resolves (sqlite_adapter texts) (row_state texts) (sqlite_resolving texts) floats decode
      marshal gate accepting declining payment "s2" (pos 20) (pos 80) (pos 2000000000) []
      (λ s. consume (pos 85) s.id ∷ []) [] steps empty_table "s2" refl refl
