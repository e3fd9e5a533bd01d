-- ===== src/Tests/RecoveryTests.antt =====
-- A payment whose callback is lost, over the in-memory adapter.
use malipo.Base.{
  inl, true, ◌≢◌, ◌+◌, ◌≤◌, String, ◌≡◌, refl, Option, none, some, List, [], ◌∷◌, arith, eq_iff,
}
use malipo.Base.Int.{pos}
use malipo.Base.Lists.{codes}
use malipo.Base.Map.{lookup}
use malipo.Store.State.{State, is_terminal, confirmed, stk_pushed}
use malipo.Store.Session.{Session}
use malipo.Store.Error.{ok}
use malipo.Memory.Contract.{memory_adapter, memory_laws}
use malipo.Session.Phone.{normalize_phone}
use malipo.Session.Trace.{run}
use malipo.X402.{gate_request, served, serve_gated}
use malipo.Wiring.Service.Recovered.{payment_recovered}
use malipo.Base.Int.{◌-ℤ◌}
use malipo.Memory.Defs.{Memory, list_pending, get_by_checkout_id, new_memory_adapter}
use malipo.Memory.Invariant.{new_memory_adapter-IsValid}
use malipo.Session.Manager.{new_session, run_recovery, initiate_payment, cleanup_tick}
use malipo.Tests.Fixtures.{accepting, phone}
use malipo.Auth.Daraja.{provider}
use malipo.Tests.GateTests.{gate, marshal, request_with}
use malipo.Tests.ServiceTests.{daraja, secret_set}

abbrev pushed_session : Session
pushed_session =
    record (new_session gate.manager (gate_request gate.opts (codes "0712345678")) phone "s2"
      (pos 50)) { state = stk_pushed; checkout_request_id = "ws_2"; merchant_request_id = "m_2" }

abbrev checkout : String
checkout = "ws_2"

checkout_set : checkout ≢ ""
checkout_set h = ground (arith, eq_iff checkout "")

abbrev requested : Memory
requested =
    (serve_gated memory_adapter marshal gate daraja (request_with "") "s2" (pos 50) (λ m. m)
      new_memory_adapter).1

pass_lists :
    list_pending (pos 200 -ℤ gate.manager.query_threshold) requested ≡ ok (pushed_session ∷ [])
unfolding lookup normalize_phone provider malipo.Auth.Daraja.access_token
    malipo.Auth.get_access_token malipo.Auth.refresh malipo.Auth.store_token
    malipo.Auth.Daraja.fetch_token malipo.Auth.generate_password malipo.Auth.Daraja.send_stk_push
    list_pending malipo.Memory.Defs.pending_in serve_gated initiate_payment
    malipo.Session.Manager.create_and_push malipo.Memory.Defs.create
    malipo.Session.Manager.push_and_record malipo.Session.Manager.transition
    malipo.Session.Machine.next_state malipo.Memory.Defs.transition malipo.Base.Map.insert
    new_session is_terminal malipo.Store.State.state_eq malipo.Memory.Defs.apply_transition ◌-ℤ◌
pass_lists = refl

-- No callback comes, and the service answers the query with "0".
payment_recovered_example :
    let db2 =
      run_recovery memory_adapter gate.manager accepting
        (pos 200)
        (λ s. run memory_adapter [])
        requested in
    (serve_gated memory_adapter marshal gate accepting
      (request_with "s2")
      ""
      (pos 210)
      (λ m. m)
      db2).0
    ≡ served
unfolding memory_laws lookup run normalize_phone provider malipo.Auth.Daraja.access_token
    malipo.Auth.get_access_token malipo.Auth.refresh malipo.Auth.store_token
    malipo.Auth.Daraja.fetch_token malipo.Auth.generate_password malipo.Auth.Daraja.send_stk_push
    get_by_checkout_id new_session
payment_recovered_example =
    payment_recovered memory_adapter memory_laws marshal gate daraja accepting accepting "s2"
      (pos 50) (pos 200) (pos 210) (λ s. []) (request_with "") (request_with "s2")
      (codes "0712345678") phone "token" checkout "m_2" (pushed_session ∷ []) new_memory_adapter
      new_memory_adapter-IsValid (λ h. ground (arith, eq_iff "s2" "")) refl refl checkout_set refl
      refl refl refl secret_set refl (λ s m. refl) pass_lists (inl refl)
      ((λ own. (checkout_set, ("done", refl))), tt) refl
