-- ===== src/Wiring/Service/Steps.antt =====
-- The steps of the running program as runs of atomic calls, in which a session is released for each
-- time that its ID is served.
use malipo.Base.{
  String, ◌≡◌, ◌≢◌, refl, sym, subst, inl, inr, Bool, false, ◌&&◌, Option, List, [], ◌∷◌, arith,
}
use malipo.Base.{str_eq, eq_iff, if◌then◌else◌, Bool-cases, Option-cases}
use malipo.Store.Session.{Session, Bytes, Time}
use malipo.Store.Error.{Result, Result-cases}
use malipo.Store.Adapter.{StorageAdapter}
use malipo.Session.Token.{TokenProvider}
use malipo.Session.Manager.{initiate_payment, elapsed}
use malipo.Session.Trace.{Call, run}
use malipo.Session.Trace.Methods.{
  initiate_payment-IsRun, handle_callback-IsRun, expire_after-IsRun, cleanup_tick-IsRun,
}
use malipo.X402.{
  Reply, served, status, text, json, Response402, Request, payment_header, Gate, gate_request,
  redeem, demand, serve_gated,
}
use malipo.X402.Replies.{demand-not_served}
use malipo.Callback.{FloatOps, StkCallback, CallbackRequest, build_update, serve_callback}
use malipo.Wiring.Service.{
  Step, gated, called_back, timed_out, ticked, is_served, after, serves, after_all, served_in,
}
use malipo.Wiring.Service.Accounts.{
  Accounts, unserved, Accounts-trans, redeem-Accounts, Accounts-IsRun,
}
use malipo.Base.{All, some, none}
use malipo.Store.Error.{ok}
use malipo.Store.State.{State}
use malipo.Store.Session.{Update}
use malipo.Session.Machine.{Event, result_code_to_event, query_result_code_to_event}
use malipo.Session.Trace.{fire}
use malipo.Session.Trace.Runs.{is_success, IsRun, no_calls}

-- An event whose transitions are allowed.
abbrev pub Reports : (Call → Type 0) → Event → Type 0
Reports P e = (id : String) (from : State) (u : Option Update) → P (fire id from e u)

serve_callback-IsRun :
    (A : StorageAdapter) (P : Call → Type 0) (free : (c : Call) → is_success c ≡ false → P c)
    (F : FloatOps) (decode : Bytes → Option (StkCallback F)) (r : CallbackRequest F)
    (others : List Call)
    → All P others
    → ((cb : StkCallback F)
        → decode r.body ≡ some cb
        → Reports P (result_code_to_event cb.result_code))
    → (db : A.Db) → IsRun A P db (serve_callback F A decode r (run A others) db).1
unfolding serve_callback
serve_callback-IsRun A P free F decode r others allowed reported db =
    elim (Bool-cases (str_eq r.method "POST")) [
      | inr wrong ↦ rw (serve_callback, wrong) (no_calls A P db)
      | inl post ↦ elim (Option-cases (decode r.body)) [
        | inl malformed ↦ rw (serve_callback, post, malformed) (no_calls A P db)
        | inr (cb, p) ↦ elim (Bool-cases (str_eq cb.checkout_request_id "")) [
          | inl unnamed ↦ rw (serve_callback, post, p, unnamed) (no_calls A P db)
          | inr named ↦
              rw (serve_callback, post, p, named)
                (handle_callback-IsRun A P free cb.checkout_request_id cb.result_code
                  (build_update F cb) others allowed
                  (λ s. reported cb p s.id s.state (build_update F cb)) db)
        ]
      ]
    ]

unserved_reply : (x : Reply) → x ≢ served → is_served x ≡ false
unserved_reply served h = absurd (h refl)
unserved_reply (status n) h = refl
unserved_reply (text n m) h = refl
unserved_reply (json n m) h = refl

and_off : (b c : Bool) → c ≡ false → b && c ≡ false
and_off b c h = ground arith

module _ (A : StorageAdapter) (P : Call → Type 0) (free : (c : Call) → is_success c ≡ false → P c)
    (F : FloatOps) (decode : Bytes → Option (StkCallback F)) (marshal : Response402 → Result String)
    (g : Gate) (sid : String) where
  module _ (auth : TokenProvider) (r : Request) (id : String) (now : Time) (others : List Call)
      (allowed : All P others) (db : A.Db) where
    demand-Accounts :
        (phone : Bytes)
        → Accounts A P free sid db
            (demand A marshal g.opts r (
              initiate_payment A g.manager auth
                (gate_request g.opts phone)
                id
                now
                (run A others)
                db)).1
            0
    demand-Accounts phone =
        let out =
          initiate_payment A g.manager auth (gate_request g.opts phone) id now (run A others) db in
        let paid =
          initiate_payment-IsRun A P free g.manager auth others allowed (gate_request g.opts phone)
            id now db in
        elim (Result-cases out.result) [
          | inl (e, h) ↦ rw h (unserved A P free sid paid)
          | inr (s, h) ↦ rw h (unserved A P free sid paid)
        ]

    -- A request that does not carry the ID does not count.
    elsewhere :
        (str_eq (payment_header r) sid
            && is_served (serve_gated A marshal g auth r id now (run A others) db).0
          ≡ false)
        → IsRun A P db (serve_gated A marshal g auth r id now (run A others) db).1
        → Accounts A P free sid db
            (after A F decode marshal g (gated auth r id now others) db)
            (if serves A F decode marshal g sid (gated auth r id now others) db then 1 else 0)
    unfolding after serves
    elsewhere h x = rw h (unserved A P free sid x)

    serve_gated-Accounts :
        Accounts A P free sid db
          (after A F decode marshal g (gated auth r id now others) db)
          (if serves A F decode marshal g sid (gated auth r id now others) db then 1 else 0)
    unfolding after serves serve_gated
    serve_gated-Accounts = elim (Bool-cases (str_eq (payment_header r) "")) [
      | inl bare ↦ elim (Result-cases (g.extract r)) [
        | inl (e, h) ↦ elsewhere (ground arith) (rw (serve_gated, bare, h) (no_calls A P db))
        | inr (phone, h) ↦
            let out =
              initiate_payment A g.manager auth (gate_request g.opts phone) id now (run A others)
                db in
            let off =
              unserved_reply (demand A marshal g.opts r out).0
                (demand-not_served A marshal g.opts r out) in
            elsewhere
              (rw (serve_gated, bare, h, off) (and_off (str_eq (payment_header r) sid) false refl))
              (rw (serve_gated, bare, h) (Accounts-IsRun A P free sid (demand-Accounts phone)))
      ]
      | inr proof ↦ elim (Bool-cases (str_eq (payment_header r) sid)) [
        | inl same ↦
            rw (after, serves, serve_gated, proof, same)
              (subst
                (λ k.
                  Accounts A P free sid db (redeem A k now (run A others) db).1
                    (if is_served (redeem A k now (run A others) db).0 then 1 else 0))
                (sym ((eq_iff (payment_header r) sid).0 same))
                (redeem-Accounts A P free sid now others allowed db))
        | inr other ↦ elsewhere (ground arith) (
            rw (serve_gated, proof)
              (Accounts-IsRun A P free (payment_header r)
                (redeem-Accounts A P free (payment_header r) now others allowed db)))
      ]
    ]

  -- The calls of a step are allowed: those by others, and the reports of success that it hands on.
  abbrev pub Admits : Step F → Type 0
  Admits (gated auth r id now others) = All P others
  Admits (called_back r others) =
      All P others
      × ((cb : StkCallback F)
          → decode r.body ≡ some cb
          → Reports P (result_code_to_event cb.result_code))
  Admits (timed_out id) = Unit
  Admits (ticked auth now later others rest) =
      ((s : Session) → All P (others s))
      × All P rest
      × ((c code desc : String)
          → auth.query_stk_status g.manager.shortcode g.manager.passkey c ≡ ok (code, desc)
          → Reports P (query_result_code_to_event code))

  after-Accounts :
      (s : Step F)
      → Admits s
      → (db : A.Db)
      → Accounts A P free sid db
          (after A F decode marshal g s db)
          (if serves A F decode marshal g sid s db then 1 else 0)
  unfolding after serves
  after-Accounts (gated auth r id now others) h db = serve_gated-Accounts auth r id now others h db
  after-Accounts (called_back r others) h db =
      unserved A P free sid (serve_callback-IsRun A P free F decode r others h.0 h.1 db)
  after-Accounts (timed_out id) h db =
      unserved A P free sid (expire_after-IsRun A P free elapsed id db)
  after-Accounts (ticked auth now later others rest) h db = unserved A P free sid (
      cleanup_tick-IsRun A P free g.manager auth others h.0
        (λ c code desc e s. h.2 c code desc e s.id s.state none) rest h.1 now later db)

  pub after_all-Accounts :
      (steps : List (Step F))
      → All Admits steps
      → (db : A.Db)
      → Accounts A P free sid db
          (after_all A F decode marshal g steps db)
          (served_in A F decode marshal g sid steps db)
  unfolding after_all served_in
  after_all-Accounts [] h db = unserved A P free sid (no_calls A P db)
  after_all-Accounts (s ∷ steps) h db =
      let next = after A F decode marshal g s db in
      subst (Accounts A P free sid db (after_all A F decode marshal g steps next)) (ground arith)
        (Accounts-trans A P free sid (after-Accounts s h.0 db) (after_all-Accounts steps h.1 next))
