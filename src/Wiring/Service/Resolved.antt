-- ===== src/Wiring/Service/Resolved.antt =====
-- A payment that was begun ends: the session of session/manager.go after the ticks of session/ttl.go.
use malipo.Base.{String, ◌≡◌, subst, inl, inr, true, Option, some, List}
use malipo.Base.{Bool-cases, str_eq}
use malipo.Base.Int.{◌+ℤ◌, ltb_ℤ}
use malipo.Store.State.{State, created, is_terminal}
use malipo.Store.Session.{Session, StkPushRequest, Bytes, Time}
use malipo.Store.Error.{Error, err, Result, Result-cases, ok}
use malipo.Store.Adapter.{StorageAdapter}
use malipo.Store.Expiry.{IsResolving}
use malipo.Session.Machine.{stk_accepted}
use malipo.Session.Phone.{normalize_phone}
use malipo.Session.Token.{TokenProvider}
use malipo.Session.Manager.{
  PaymentRequest, Config, Initiated, stopped_with, new_session, correlation, transition,
  spawn_timer, push_and_record, create_and_push, initiate_payment, cleanup_tick,
}
use malipo.Session.Trace.{Call, run}
use malipo.Session.Trace.Runs.{AnyCall}
use malipo.Session.Trace.Expiry.{run-HasExpiry, reached-HasExpiry, fire-HasExpiry, tick_resolves}
use malipo.X402.{Response402, Gate}
use malipo.Callback.{FloatOps, StkCallback}
use malipo.Wiring.Service.{Step, after_all}
use malipo.Wiring.Service.AnySteps.{steps-IsRun}

module _ (A : StorageAdapter) (state_of : A.Db → String → Option State) (R : IsResolving A state_of)
    (cfg : Config) (auth : TokenProvider) (id : String) (now : Time) (others : List Call) where
  abbrev ends : Time
  ends = now +ℤ cfg.ttl

  -- What is said of an initiation: a session ID that it returns is stored with its expiry.
  abbrev pub IsKept : Initiated A → Type 0
  IsKept out = (sid : String) → out.result ≡ ok sid → R.HasExpiry sid ends out.db

  stopped : (e : Error) (db : A.Db) → IsKept (stopped_with A e db)
  stopped e db sid done = absurd (cc done)

  spawned-IsKept :
      (r : Result (Unit {0}) × A.Db) → R.HasExpiry id ends r.1 → IsKept (spawn_timer A cfg id r)
  spawned-IsKept (err e, db) h sid done = absurd (cc done)
  spawned-IsKept (ok _, db) h sid done =
      let same : id ≡ sid = cc done in subst (λ j. R.HasExpiry j ends db) same h

  push-IsKept :
      (request : StkPushRequest) (db : A.Db)
      → R.HasExpiry id ends db
      → IsKept (push_and_record A cfg auth request id (run A others) db)
  unfolding push_and_record
  push-IsKept request db h = elim (Result-cases (auth.send_stk_push request)) [
    | inl (e, p) ↦ rw (push_and_record, p) (stopped e _)
    | inr ((c, m), p) ↦
        let u = some (correlation c m) in
        rw (push_and_record, p)
          (spawned-IsKept (transition A id created stk_accepted u (run A others db)) (
            fire-HasExpiry A state_of R id ends id created stk_accepted u (run A others db)
              (run-HasExpiry A state_of R id ends others db h)))
  ]

  new_stored :
      (req : PaymentRequest) (phone : Bytes) (db : A.Db)
      → (A.create (new_session cfg req phone id now) db).0 ≡ ok tt
      → R.HasExpiry id ends (A.create (new_session cfg req phone id now) db).1
  unfolding new_session
  new_stored req phone db h = R.create_has (new_session cfg req phone id now) db h

  create-IsKept :
      (req : PaymentRequest) (phone : Bytes) (token password timestamp : String) (db : A.Db)
      → IsKept
          (create_and_push A cfg auth req phone token password timestamp id now (run A others) db)
  unfolding create_and_push
  create-IsKept req phone token password timestamp db =
      let s = new_session cfg req phone id now in
      elim (Result-cases (A.create s db).0) [
        | inl (e, h) ↦ rw (create_and_push, h) (stopped e _)
        | inr (_, h) ↦
            rw (create_and_push, h) (push-IsKept _ (A.create s db).1 (new_stored req phone db h))
      ]

  pub initiate_payment-IsKept :
      (req : PaymentRequest) (db : A.Db)
      → IsKept (initiate_payment A cfg auth req id now (run A others) db)
  unfolding initiate_payment
  initiate_payment-IsKept req db = elim (Result-cases (normalize_phone req.phone)) [
    | inl (e, h) ↦ rw (initiate_payment, h) (stopped e db)
    | inr (phone, h) ↦ elim (Result-cases auth.get_access_token) [
      | inl (e, k) ↦ rw (initiate_payment, h, k) (stopped e db)
      | inr (token, k) ↦
          elim (Bool-cases (str_eq (auth.generate_password cfg.shortcode cfg.passkey).0 "")) [
            | inl empty ↦ rw (initiate_payment, h, k, empty) (stopped _ db)
            | inr set ↦ rw (initiate_payment, h, k, set) (create-IsKept req phone token _ _ db)
          ]
    ]
  ]

module _ (A : StorageAdapter) (state_of : A.Db → String → Option State) (R : IsResolving A state_of)
    (F : FloatOps) (decode : Bytes → Option (StkCallback F)) (marshal : Response402 → Result String)
    (g : Gate) where
  -- Over any adapter that keeps expiries and sweeps by them: if `InitiatePayment` returns a session ID,
  -- then after any steps of the program and a tick of the cleanup goroutine whose expiry pass has an
  -- instant that the adapter tells to be later than the payment's instant plus its lifetime (SQLite tells
  -- instants apart by their whole seconds), the session is stored in a terminal state, whatever the service
  -- answers and whatever atomic calls others make.
  pub payment_resolves :
      (auth auth' : TokenProvider) (req : PaymentRequest) (id : String) (now tick later : Time)
      (others : List Call) (others' : Session → List Call) (rest : List Call)
      (steps : List (Step F)) (db : A.Db) (sid : String)
      → let out = initiate_payment A g.manager auth req id now (run A others) db in
        out.result ≡ ok sid
        → ltb_ℤ (R.floor (now +ℤ g.manager.ttl)) (R.floor later) ≡ true
        → (t : State) × (state_of
              (cleanup_tick A g.manager auth' tick later
                (λ s. run A (others' s))
                (run A rest)
                (after_all A F decode marshal g steps out.db))
              sid
            ≡ some t)
          × (is_terminal t ≡ true)
  payment_resolves auth auth' req id now tick later others others' rest steps db sid done late =
      let out = initiate_payment A g.manager auth req id now (run A others) db in
      let x = now +ℤ g.manager.ttl in
      tick_resolves A state_of R sid x g.manager auth' others' rest tick later
        (after_all A F decode marshal g steps out.db)
        (reached-HasExpiry A state_of R sid x AnyCall
          (steps-IsRun A F decode marshal g sid steps out.db)
          (initiate_payment-IsKept A state_of R g.manager auth id now others req db sid done))
        late
