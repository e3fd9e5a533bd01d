-- ===== src/X402/Replies.antt =====
-- The gate's whole handler: which requests it serves, and what its 402 reply announces.
use Prim.Native.String.{◌++◌}
use malipo.Base.{ℕ, String, ◌≡◌, ◌≢◌, ap, subst, inl, inr, none, some, [], ◌∷◌, arith}
use malipo.Base.{str_eq, eq_iff, if◌then◌else◌, Bool-cases}
use malipo.Store.State.{stk_pushed, confirmed, consumed}
use malipo.Store.Session.{Time}
use malipo.Store.Error.{Result, ok, Result-cases}
use malipo.Store.Adapter.{StorageAdapter, IsAdapter, SetsState}
use malipo.Store.Safety.{IsSafeAdapter}
use malipo.Session.Token.{TokenProvider}
use malipo.Session.Manager.{Config, Initiated, initiate_payment}
use malipo.Session.Manager.Initiate.{Settles, initiate_payment-Settles}
use malipo.X402.{
  Reply, served, json, PaymentRequirements, Response402, Request, payment_header, GateOptions, Gate,
  build_requirements, write_402, gate_request, redeem, demand, serve_gated,
}
use malipo.X402.Release.{redeem_served, redeem_cases}

write_402-not_served :
    (marshal : Response402 → Result String) (reqs : PaymentRequirements)
    → write_402 marshal reqs ≢ served
unfolding write_402
write_402-not_served marshal reqs h = ground arith

write_402_body :
    (marshal : Response402 → Result String) (reqs : PaymentRequirements) (n : ℕ) (body : String)
    → write_402 marshal reqs ≡ json n body
    → (n ≡ 402) × (marshal (record { accepts = reqs ∷ []; error = "Payment required" }) ≡ ok body)
unfolding write_402
write_402_body marshal reqs n body h = ground arith

redeem-not_json :
    (A : StorageAdapter) (id : String) (now : Time) (between : A.Db → A.Db) (db : A.Db) (n : ℕ)
    (body : String)
    → (redeem A id now between db).0 ≢ json n body
redeem-not_json A id now between db n body h = elim (redeem_cases A id now between db) [
  | inl early ↦ cc
  | inr late ↦ ground (arith, ap (λ (x : Reply × A.Db). x.0) late)
]

pub demand-not_served :
    (A : StorageAdapter) (marshal : Response402 → Result String) (opts : GateOptions) (r : Request)
    (out : Initiated A)
    → (demand A marshal opts r out).0 ≢ served
demand-not_served A marshal opts r out h = elim (Result-cases out.result) [
  | inl (e, failed) ↦ absurd (ground arith)
  | inr (sid, got) ↦ write_402-not_served marshal (build_requirements opts r sid) (ground arith)
]

module _ (A : StorageAdapter) (L : IsAdapter A) (marshal : Response402 → Result String)
    (opts : GateOptions) (r : Request) where
  open L use {state_of}

  demand_json :
      (out : Initiated A) (cfg : Config) (auth : TokenProvider) (db : A.Db) (id : String) {n : ℕ}
      {body : String}
      → Settles A L cfg auth db id out.result out.db out.timer
      → (demand A marshal opts r out).0 ≡ json n body
      → (n ≡ 402)
        × (marshal
              (record { accepts = build_requirements opts r id ∷ []; error = "Payment required" })
            ≡ ok body)
        × (state_of db id ≡ none)
        × (state_of (demand A marshal opts r out).1 id ≡ some stk_pushed)
  demand_json out cfg auth db id {n} {body} settled h = elim (Result-cases out.result) [
    | inl (e, failed) ↦ absurd (ground arith)
    | inr (sid, got) ↦
        let (same, timer, fresh, pushed) = settled_ok sid got in
        let (code, made) =
          write_402_body marshal (build_requirements opts r sid) n body (ground arith) in
        (code, rw (← same) made, fresh, ground arith)
  ]
    where
      settled_ok :
          (sid : String)
          → out.result ≡ ok sid
          → (sid ≡ id)
            × (out.timer ≡ some (id, cfg.ttl))
            × (state_of db id ≡ none)
            × (state_of out.db id ≡ some stk_pushed)
      settled_ok sid got =
          subst (λ (x : Result String). Settles A L cfg auth db id x out.db out.timer) got settled

module _ (A : StorageAdapter) (S : IsSafeAdapter A) (marshal : Response402 → Result String)
    (g : Gate) (auth : TokenProvider) (r : Request) (id : String) (now : Time)
    (between : A.Db → A.Db) (db : A.Db) where
  open S use {IsValid, state_of}

  -- Over any safe adapter, if the store is valid when the consumption comes: the
  -- wrapped handler runs only for a request that carries a session ID, and only if that session was
  -- confirmed when it was consumed; the request leaves it consumed, and every other session's state
  -- as it was then.
  pub serve_gated_served :
      IsValid (between db)
      → let out = serve_gated A marshal g auth r id now between db in
        out.0 ≡ served
        → (payment_header r ≢ "")
          × (state_of (between db) (payment_header r) ≡ some confirmed)
          × SetsState (state_of (between db)) (state_of out.1) (payment_header r) consumed
  unfolding serve_gated
  serve_gated_served v h = elim (Bool-cases (str_eq (payment_header r) "")) [
    | inl bare ↦ elim (Result-cases (g.extract r)) [
      | inl (e, failed) ↦ absurd (ground arith)
      | inr (phone, got) ↦ absurd (
          demand-not_served A marshal g.opts r
            (initiate_payment A g.manager auth (gate_request g.opts phone) id now between db)
            (ground arith))
    ]
    | inr proof ↦
        let (at, moved) = redeem_served A S (payment_header r) now between db v (ground arith) in
        (ground (arith, eq_iff (payment_header r) ""), at, λ j. rw (serve_gated, proof) (moved j))
  ]

module _ (A : StorageAdapter) (L : IsAdapter A) (marshal : Response402 → Result String) (g : Gate)
    (auth : TokenProvider) (r : Request) (id : String) (now : Time) (between : A.Db → A.Db)
    (db : A.Db) where
  open L use {state_of}

  -- Over any adapter that keeps its laws: a JSON reply is a 402 to a request that carries no
  -- session ID; its body is the serialisation of one offer: the scheme "mpesa" on "safaricom-ke", the
  -- amount, the currency, the description and the shortcode of the gate, the URL of the request, 5
  -- seconds, and the ID of a session that was not stored before the request and is STK_PUSHED when the
  -- reply is written.
  pub serve_gated_json :
      {n : ℕ} {body : String}
      → let out = serve_gated A marshal g auth r id now between db in
        out.0 ≡ json n body
        → (payment_header r ≡ "")
          × (n ≡ 402)
          × (marshal (record {
            accepts =
                record {
                  scheme = "mpesa";
                  network = "safaricom-ke";
                  amount = g.opts.amount;
                  currency = g.opts.currency;
                  resource =
                      (if r.tls then "https" else "http") ++ "://" ++ r.host ++ r.request_uri;
                  description = g.opts.description;
                  pay_to = g.opts.shortcode;
                  session_id = id;
                  retry_after = 5;
                }
                ∷ [];
            error = "Payment required";
          })
              ≡ ok body)
          × (state_of db id ≡ none)
          × (state_of out.1 id ≡ some stk_pushed)
  unfolding serve_gated build_requirements
  serve_gated_json {n} {body} h = elim (Bool-cases (str_eq (payment_header r) "")) [
    | inr proof ↦ absurd (redeem-not_json A (payment_header r) now between db n body (ground arith))
    | inl bare ↦ elim (Result-cases (g.extract r)) [
      | inl (e, failed) ↦ absurd (ground arith)
      | inr (phone, got) ↦
          let out =
            initiate_payment A g.manager auth (gate_request g.opts phone) id now between db in
          let (code, made, fresh, pushed) =
            demand_json A L marshal g.opts r out g.manager auth db id
              (initiate_payment-Settles A L g.manager auth (gate_request g.opts phone) id now
                between db)
              (ground arith) in
          (
            (eq_iff (payment_header r) "").0 bare,
            code,
            made,
            fresh,
            rw (serve_gated, bare, got) pushed,
          )
    ]
  ]
