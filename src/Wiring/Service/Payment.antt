-- ===== src/Wiring/Service/Payment.antt =====
-- A payment from the first request to the served one.
use malipo.Base.{String, ◌≡◌, ◌≢◌, sym, ◌∙◌, ap, inl, inr, true, false, Option, none, some, arith}
use malipo.Base.{str_eq, eq_iff, eq_refl}
use malipo.Base.Int.{pos}
use malipo.Store.State.{confirmed, state_eq}
use malipo.Store.Session.{Bytes, Time}
use malipo.Store.Error.{Result, Result-cases, ok, err, not_found}
use malipo.Store.Adapter.{StorageAdapter, IsAdapter}
use malipo.Session.Machine.{result_code_to_event}
use malipo.Session.Phone.{normalize_phone}
use malipo.Session.Token.{TokenProvider}
use malipo.Session.Manager.{Initiated, push_request, initiate_payment}
use malipo.Session.Manager.Transition.{transition-IsValid}
use malipo.Session.Manager.Resolve.{handle_callback_found, handle_callback_pending}
use malipo.X402.{
  served, Response402, Request, payment_header, Gate, gate_request, demand, serve_gated,
}
use malipo.X402.Release.{redeem_served_iff}
use malipo.Callback.{FloatOps, StkCallback, CallbackRequest, build_update, serve_callback}
use malipo.Callback.Status.{serve_callback_delivers}
use malipo.Wiring.Service.Pushed.{IsPushed, initiate_payment-IsPushed}

module _ (A : StorageAdapter) (L : IsAdapter A) where
  open L use {IsValid, state_of}

  -- A callback with the result code 0 for a pushed session confirms it.
  serve_callback-confirmed :
      (F : FloatOps) (decode : Bytes → Option (StkCallback F)) (r : CallbackRequest F)
      (cb : StkCallback F) (id : String) (db : A.Db)
      → IsPushed A L db id cb.checkout_request_id
      → r.method ≡ "POST"
      → decode r.body ≡ some cb
      → cb.checkout_request_id ≢ ""
      → cb.result_code ≡ pos 0
      → IsValid (serve_callback F A decode r (λ d. d) db).1
        × (state_of (serve_callback F A decode r (λ d. d) db).1 id ≡ some confirmed)
  unfolding state_eq
  serve_callback-confirmed F decode r cb id db x post decoded named paid =
      let u = build_update F cb in
      let code = cb.result_code in
      let s = x.session in
      let fires = handle_callback_found A L cb.checkout_request_id code u (λ d. d) db s x.found in
      let (_, moved) =
        handle_callback_pending A L cb.checkout_request_id code u (λ d. d) db s x.found
          (rw x.pushed) (ap (state_of db) x.own ∙ x.held ∙ ap some (sym x.pushed)) in
      rw (serve_callback_delivers F A decode r (λ d. d) db cb post decoded named) (
        (rw fires (transition-IsValid A L s.id s.state (result_code_to_event code) u db x.valid)),
        moved id ∙ rw (x.own, eq_refl id, paid),
      )

  module _ (marshal : Response402 → Result String) (g : Gate) (auth : TokenProvider) (r : Request)
      (id : String) (now : Time) where
    demand_store : (out : Initiated A) → (demand A marshal g.opts r out).1 ≡ out.db
    demand_store out = elim (Result-cases out.result) [ inl (e, h) ↦ rw h | inr (s, h) ↦ rw h ]

    pub bare_request_store :
        (phone : Bytes) (db : A.Db)
        → payment_header r ≡ ""
        → g.extract r ≡ ok phone
        → (serve_gated A marshal g auth r id now (λ d. d) db).1
          ≡ (initiate_payment A g.manager auth (gate_request g.opts phone) id now (λ d. d) db).db
    unfolding serve_gated
    bare_request_store phone db bare h =
        rw (serve_gated, empty, h)
          (demand_store
            (initiate_payment A g.manager auth (gate_request g.opts phone) id now (λ d. d) db))
      where
        empty : str_eq (payment_header r) "" ≡ true
        empty = ground (arith, eq_iff (payment_header r) "")

    pub confirmed_served :
        (db : A.Db)
        → IsValid db
        → payment_header r ≢ ""
        → state_of db (payment_header r) ≡ some confirmed
        → (serve_gated A marshal g auth r id now (λ d. d) db).0 ≡ served
    unfolding serve_gated
    confirmed_served db v set at =
        rw (serve_gated, header) ((redeem_served_iff A L (payment_header r) now db v set).1 at)
      where
        header : str_eq (payment_header r) "" ≡ false
        header = ground (arith, eq_iff (payment_header r) "")

-- A payment over a gate: the first request, the callback, and the request that redeems the session ID.
module _ (A : StorageAdapter) (L : IsAdapter A) (F : FloatOps)
    (decode : Bytes → Option (StkCallback F)) (marshal : Response402 → Result String) (g : Gate)
    (auth auth' : TokenProvider) (id : String) (now now' : Time) where
  open L use {IsValid, state_of}

  -- Over any adapter that keeps its laws, from a valid store that does not hold the new session ID and
  -- finds nothing under the checkout ID, with nobody else at the store: if the phone number of a request
  -- without a header is extracted and normalized, the token, the password and the push are there, and a
  -- POST with the push's checkout ID and the result code 0 arrives, then the next request that carries
  -- the session ID is served.
  pub payment_served :
      (first next : Request) (phone normal : Bytes) (token c merchant : String)
      (r : CallbackRequest F) (cb : StkCallback F) (db : A.Db)
      → IsValid db
      → id ≢ ""
      → state_of db id ≡ none
      → A.get_by_checkout_id c db ≡ err not_found
      → c ≢ ""
      → payment_header first ≡ ""
      → g.extract first ≡ ok phone
      → normalize_phone phone ≡ ok normal
      → auth.get_access_token ≡ ok token
      → let (secret, timestamp) = auth.generate_password g.manager.shortcode g.manager.passkey in
        secret ≢ ""
        → auth.send_stk_push
            (push_request g.manager (gate_request g.opts phone) normal token secret timestamp)
          ≡ ok (c, merchant)
        → r.method ≡ "POST"
        → decode r.body ≡ some cb
        → cb.checkout_request_id ≡ c
        → cb.result_code ≡ pos 0
        → payment_header next ≡ id
        → let db1 = (serve_gated A marshal g auth first id now (λ d. d) db).1 in
          let db2 = (serve_callback F A decode r (λ d. d) db1).1 in
          (serve_gated A marshal g auth' next "" now' (λ d. d) db2).0 ≡ served
  payment_served first next phone normal token c merchant r cb db v set fresh unindexed named bare
        extracted normalized granted secret sent post decoded same paid carries =
      let db1 = (serve_gated A marshal g auth first id now (λ d. d) db).1 in
      let pushed =
        initiate_payment-IsPushed A L g.manager auth (gate_request g.opts phone) id now db c
          merchant normal token v fresh unindexed named normalized granted secret sent in
      let pushed' : IsPushed A L db1 id cb.checkout_request_id =
        rw (bare_request_store A L marshal g auth first id now phone db bare extracted, same)
          pushed in
      let (valid, at) =
        serve_callback-confirmed A L F decode r cb id db1 pushed' post decoded (rw same named)
          paid in
      confirmed_served A L marshal g auth' next "" now' (serve_callback F A decode r (λ d. d) db1).1
        valid (rw carries set) (rw carries at)
