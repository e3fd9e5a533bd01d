-- ===== src/Wiring/Service/Recovered.antt =====
-- A payment whose callback is lost, from the first request over the recovery pass to the served one.
use malipo.Base.{String, ◌≡◌, ◌≢◌, refl, none, some, List, All}
use malipo.Base.Int.{◌-ℤ◌}
use malipo.Store.State.{stk_pushed, confirmed, state_eq}
use malipo.Store.Session.{Session, Bytes, Time}
use malipo.Store.Error.{Result, ok, err, not_found}
use malipo.Store.Adapter.{StorageAdapter, IsAdapter}
use malipo.Session.Phone.{normalize_phone}
use malipo.Session.Token.{TokenProvider}
use malipo.Session.Manager.{push_request, run_recovery}
use malipo.Session.Manager.Recovery.{IsListed, IsQuiet, IsAnswered, run_recovery_moves}
use malipo.Session.Trace.{Call, run}
use malipo.Session.Trace.Safe.{safe}
use malipo.Session.Trace.Runs.{AnyCall, All-AnyCall}
use malipo.Session.Trace.Methods.{run_recovery-IsRun}
use malipo.Session.Trace.Release.{run-IsValid}
use malipo.X402.{served, Response402, Request, payment_header, Gate, gate_request, serve_gated}
use malipo.Wiring.Service.Pushed.{IsPushed, initiate_payment-IsPushed}
use malipo.Wiring.Service.Payment.{bare_request_store, confirmed_served}

module _ (A : StorageAdapter) (L : IsAdapter A) (marshal : Response402 → Result String) (g : Gate)
    (auth auth' auth'' : TokenProvider) (id : String) (now tick now' : Time)
    (others : Session → List Call) where
  open L use {IsValid, state_of}

  abbrev rivals : Session → A.Db → A.Db
  rivals s = run A (others s)

  run_recovery-IsValid :
      (db : A.Db) → IsValid db → IsValid (run_recovery A g.manager auth' tick rivals db)
  run_recovery-IsValid db v =
      let path =
        run_recovery-IsRun A AnyCall (λ c h. tt) g.manager auth' others
          (λ s. All-AnyCall (others s)) (λ c code desc h s. tt) tick db in
      rw path.reached (run-IsValid A (safe A L) path.calls db v)

  -- Over any adapter that keeps its laws, from a valid store that does not hold the new session ID and
  -- finds nothing under the checkout ID: if the phone number of a request without a header is extracted and
  -- normalized, the token, the password and the push are there, no callback comes, and a recovery pass
  -- lists the session, whose query is answered with "0", while others leave its state alone, then the next
  -- request that carries the session ID is served.
  pub payment_recovered :
      (first next : Request) (phone normal : Bytes) (token c merchant : String) (l : List Session)
      (db : A.Db)
      → IsValid db
      → id ≢ ""
      → state_of db id ≡ none
      → A.get_by_checkout_id c db ≡ err not_found
      → c ≢ ""
      → payment_header first ≡ ""
      → g.extract first ≡ ok phone
      → normalize_phone phone ≡ ok normal
      → auth.get_access_token ≡ ok token
      → let (secret, timestamp) = auth.generate_password g.manager.shortcode g.manager.passkey in
        secret ≢ ""
        → auth.send_stk_push
            (push_request g.manager (gate_request g.opts phone) normal token secret timestamp)
          ≡ ok (c, merchant)
        → IsQuiet A L g.manager auth' rivals id "0" stk_pushed
        → let db1 = (serve_gated A marshal g auth first id now (λ d. d) db).1 in
          A.list_pending (tick -ℤ g.manager.query_threshold) db1 ≡ ok l
          → IsListed id l
          → All (IsAnswered A L g.manager auth' rivals id "0" stk_pushed) l
          → payment_header next ≡ id
          → let db2 = run_recovery A g.manager auth' tick rivals db1 in
            (serve_gated A marshal g auth'' next "" now' (λ d. d) db2).0 ≡ served
  unfolding state_eq
  payment_recovered first next phone normal token c merchant l db v set fresh unindexed named bare
        extracted normalized granted secret sent quiet listing listed answered carries =
      let db1 = (serve_gated A marshal g auth first id now (λ d. d) db).1 in
      let pushed : IsPushed A L db1 id c =
        rw (bare_request_store A L marshal g auth first id now phone db bare extracted) (
          initiate_payment-IsPushed A L g.manager auth (gate_request g.opts phone) id now db c
            merchant normal token v fresh unindexed named normalized granted secret sent) in
      let at : state_of (run_recovery A g.manager auth' tick rivals db1) id ≡ some confirmed =
        run_recovery_moves A L g.manager auth' rivals id "0" stk_pushed tick db1 l quiet
          pushed.valid listing pushed.held refl listed answered in
      confirmed_served A L marshal g auth'' next "" now'
        (run_recovery A g.manager auth' tick rivals db1) (run_recovery-IsValid db1 pushed.valid)
        (rw carries set) (rw carries at)
