-- ===== src/Session/Manager/Initiate.antt =====
-- `InitiatePayment`: what each way through it leaves in the store, over any adapter that keeps its laws
-- and whatever other goroutines do while the push is under way.
use malipo.Base.{String, ◌≡◌, ◌≢◌, refl, ap, subst, ◌⊎◌, inl, inr, Option, none, some, arith}
use malipo.Base.{str_eq, eq_refl, Bool-cases, Option-cases}
use malipo.Store.State.{created, stk_pushed, failed}
use malipo.Store.Session.{Update, StkPushRequest, Time, Duration, Bytes}
use malipo.Store.Error.{Error, Result, ok, err, Result-cases}
use malipo.Store.Adapter.{StorageAdapter, IsAdapter}
use malipo.Session.Machine.{next_state, stk_accepted, stk_rejected}
use malipo.Session.Phone.{normalize_phone}
use malipo.Session.Token.{TokenProvider}
use malipo.Session.Manager.{
  PaymentRequest, Config, new_session, correlation, transition, Initiated, stopped_with,
  spawn_timer, push_and_record, create_and_push, initiate_payment,
}
use malipo.Session.Manager.Transition.{transition_fires, transition_unmet, state_is}

pub accepted_step : next_state created stk_accepted ≡ some stk_pushed
unfolding next_state
accepted_step = refl

rejected_step : next_state created stk_rejected ≡ some failed
unfolding next_state
rejected_step = refl

module _ (A : StorageAdapter) (L : IsAdapter A) (cfg : Config) (auth : TokenProvider) where
  open L use {IsValid, state_of}

  -- What a caller may rely on, of a call that began with the store `db`: a session ID means a pushed
  -- session that was not there before, with its timer; an error means that nothing was stored, or that
  -- the session is not left in CREATED.
  abbrev pub Settles : A.Db → String → Result String → A.Db → Option (String × Duration) → Type 0
  Settles db id (ok r) db' timer =
      (r ≡ id)
      × (timer ≡ some (id, cfg.ttl))
      × (state_of db id ≡ none)
      × (state_of db' id ≡ some stk_pushed)
  Settles db id (err e) db' timer = (timer ≡ none) × ((db' ≡ db) ⊎ (state_of db' id ≢ some created))

  module _ (id : String) (db : A.Db) where
    abbrev IsSettled : Initiated A → Type 0
    IsSettled out = Settles db id out.result out.db out.timer

    -- The second write, after an answer of either kind, of the store `mid`.
    rejected_settles :
        (e : Error) (mid : A.Db)
        → IsSettled (stopped_with A e (transition A id created stk_rejected none mid).1)
    rejected_settles e mid = elim (state_is (state_of mid id) created) [
      | inl at ↦ (
        refl,
        inr (λ h. ground (
          arith,
          eq_refl id,
          (transition_fires A L id created stk_rejected none mid rejected_step at).1 id,
        )),
      )
      | inr away ↦
          let (x, kept) = transition_unmet A L id created stk_rejected none mid away in
          (
            refl,
            inr (λ h.
                away (
                  subst (λ (r : Result (Unit {0}) × A.Db). state_of r.1 id ≡ some created) kept h)),
          )
    ]

    accepted_settles :
        (u : Update) (mid : A.Db)
        → state_of db id ≡ none
        → IsSettled (spawn_timer A cfg id (transition A id created stk_accepted (some u) mid))
    accepted_settles u mid fresh = elim (state_is (state_of mid id) created) [
      | inl at ↦
          let (done, moved) =
            transition_fires A L id created stk_accepted (some u) mid accepted_step at in
          rw done (refl, refl, fresh, ground (arith, eq_refl id, moved id))
      | inr away ↦
          let (x, kept) = transition_unmet A L id created stk_accepted (some u) mid away in
          rw kept (refl, inr away)
    ]

    push_settles :
        (request : StkPushRequest) (between : A.Db → A.Db) (db' : A.Db)
        → state_of db id ≡ none
        → IsSettled (push_and_record A cfg auth request id between db')
    unfolding push_and_record
    push_settles request between db' fresh = elim (Result-cases (auth.send_stk_push request)) [
      | inl (e, h) ↦ rw (push_and_record, h) (rejected_settles e (between db'))
      | inr ((c, m), h) ↦
          rw (push_and_record, h) (accepted_settles (correlation c m) (between db') fresh)
    ]

    stored_under :
        (req : PaymentRequest) (phone : Bytes) (now : Time)
        → state_of db (new_session cfg req phone id now).id ≡ none
        → state_of db id ≡ none
    unfolding new_session
    stored_under req phone now fresh = fresh

    create_settles :
        (req : PaymentRequest) (phone : Bytes) (token password timestamp : String) (now : Time)
        (between : A.Db → A.Db)
        → IsSettled
            (create_and_push A cfg auth req phone token password timestamp id now between db)
    unfolding create_and_push
    create_settles req phone token password timestamp now between =
        let s = new_session cfg req phone id now in
        elim (Option-cases (state_of db s.id)) [
          | inl fresh ↦
              rw (create_and_push, (L.create_fresh s db fresh).0)
                (push_settles _ between (A.create s db).1 (stored_under req phone now fresh))
          | inr (t, taken) ↦
              let whole = L.create_taken s db taken in
              rw (create_and_push, ap (λ (r : Result (Unit {0}) × A.Db). r.0) whole)
                (refl, inl (ap (λ (r : Result (Unit {0}) × A.Db). r.1) whole))
        ]

  -- Over any adapter that keeps its laws, `InitiatePayment` settles, in every branch and whatever
  -- is done to the store while the push is under way: a returned ID is the new session's, which was
  -- not stored before, is now STK_PUSHED and has its timer; after an error the store is as it was,
  -- or the session is not in CREATED, and no timer runs.
  pub initiate_payment-Settles :
      (req : PaymentRequest) (id : String) (now : Time) (between : A.Db → A.Db) (db : A.Db)
      → let out = initiate_payment A cfg auth req id now between db in
        Settles db id out.result out.db out.timer
  unfolding initiate_payment
  initiate_payment-Settles req id now between db = elim (Result-cases (normalize_phone req.phone)) [
    | inl (e, h) ↦ rw (initiate_payment, h) (refl, inl refl)
    | inr (phone, h) ↦ elim (Result-cases auth.get_access_token) [
      | inl (e, k) ↦ rw (initiate_payment, h, k) (refl, inl refl)
      | inr (token, k) ↦
          elim (Bool-cases (str_eq (auth.generate_password cfg.shortcode cfg.passkey).0 "")) [
            | inl empty ↦ rw (initiate_payment, h, k, empty) (refl, inl refl)
            | inr set ↦
                rw (initiate_payment, h, k, set)
                  (create_settles id db req phone token _ _ now between)
          ]
    ]
  ]
