-- ===== src/Session/Trace/Methods.antt =====
-- session/manager.go and session/ttl.go: what a method leaves in the store is what a sequence of the
-- atomic calls leaves there, if the other goroutines make such calls too.
use malipo.Base.{String, ◌≡◌, refl, inl, inr, Option, none, some, List, [], ◌∷◌}
use malipo.Base.{false, All, str_eq, Bool-cases}
use malipo.Base.Int.{ℤ, ◌-ℤ◌}
use malipo.Store.State.{State, created, stk_pushed}
use malipo.Store.Session.{Session, Update, StkPushRequest, Time, Bytes}
use malipo.Store.Error.{Result, Result-cases, ok, err}
use malipo.Store.Adapter.{StorageAdapter}
use malipo.Session.Machine.{
  Event, stk_accepted, stk_rejected, ttl_expired, result_code_to_event, query_result_code_to_event,
}
use malipo.Session.Phone.{normalize_phone}
use malipo.Session.Token.{TokenProvider}
use malipo.Session.Manager.{
  PaymentRequest, Config, new_session, correlation, transition, spawn_timer, push_and_record,
  create_and_push, initiate_payment, handle_callback, Wake, elapsed, stop_closed, expire_after,
  recover_one, recover_all, run_recovery, cleanup_tick,
}
use malipo.Session.Trace.{Call, create, fire, expire, perform, run}
use malipo.Session.Trace.Runs.{is_success, IsRun, no_calls, run_of, one_call, IsRun-trans}

pub spawned :
    (A : StorageAdapter) (cfg : Config) (id : String) (r : Result (Unit {0}) × A.Db)
    → (spawn_timer A cfg id r).db ≡ r.1
spawned A cfg id (err e, db) = refl
spawned A cfg id (ok _, db) = refl

-- The methods, where P allows at least the calls that report no success.
module _ (A : StorageAdapter) (P : Call → Type 0)
    (free : (c : Call) → is_success c ≡ false → P c) where
  fired :
      (id : String) (from : State) (e : Event) (u : Option Update)
      → P (fire id from e u)
      → (db : A.Db) → IsRun A P db (transition A id from e u db).1
  unfolding perform
  fired id from e u h db = one_call A P (fire id from e u) h db

  fired_free :
      (id : String) (from : State) (e : Event) (u : Option Update)
      → is_success (fire id from e u) ≡ false
      → (db : A.Db) → IsRun A P db (transition A id from e u db).1
  fired_free id from e u h db = fired id from e u (free (fire id from e u) h) db

  expired : (t : Time) (db : A.Db) → IsRun A P db (A.expire_stale t db).1
  unfolding perform
  expired t db = one_call A P (expire t) (free (expire t) refl) db

  created_new :
      (cfg : Config) (req : PaymentRequest) (phone : Bytes) (id : String) (now : Time) (db : A.Db)
      → IsRun A P db (A.create (new_session cfg req phone id now) db).1
  unfolding perform new_session
  created_new cfg req phone id now db =
      let s = new_session cfg req phone id now in one_call A P (create s) (free (create s) refl) db

  module _ (cfg : Config) (auth : TokenProvider) (others : List Call) (allowed : All P others) where
    push-IsRun :
        (request : StkPushRequest) (id : String) (db : A.Db)
        → IsRun A P db (push_and_record A cfg auth request id (run A others) db).db
    unfolding push_and_record
    push-IsRun request id db = elim (Result-cases (auth.send_stk_push request)) [
      | inl (e, h) ↦
          rw (push_and_record, h)
            (IsRun-trans A P (run_of A P others allowed db)
              (fired_free id created stk_rejected none refl (run A others db)))
      | inr ((c, m), h) ↦
          let u : Option Update = some (correlation c m) in
          rw
            (
              push_and_record,
              h,
              spawned A cfg id (transition A id created stk_accepted u (run A others db)),
            )
            (IsRun-trans A P (run_of A P others allowed db)
              (fired_free id created stk_accepted u refl (run A others db)))
    ]

    create-IsRun :
        (req : PaymentRequest) (phone : Bytes) (token password timestamp id : String) (now : Time)
        (db : A.Db)
        → IsRun A P db
            (create_and_push A cfg auth req phone token password timestamp id now
              (run A others)
              db).db
    unfolding create_and_push
    create-IsRun req phone token password timestamp id now db =
        let s = new_session cfg req phone id now in
        elim (Result-cases (A.create s db).0) [
          | inl (e, h) ↦ rw (create_and_push, h) (created_new cfg req phone id now db)
          | inr (_, h) ↦
              rw (create_and_push, h)
                (IsRun-trans A P (created_new cfg req phone id now db)
                  (push-IsRun _ id (A.create s db).1))
        ]

    pub initiate_payment-IsRun :
        (req : PaymentRequest) (id : String) (now : Time) (db : A.Db)
        → IsRun A P db (initiate_payment A cfg auth req id now (run A others) db).db
    unfolding initiate_payment
    initiate_payment-IsRun req id now db = elim (Result-cases (normalize_phone req.phone)) [
      | inl (e, h) ↦ rw (initiate_payment, h) (no_calls A P db)
      | inr (phone, h) ↦ elim (Result-cases auth.get_access_token) [
        | inl (e, k) ↦ rw (initiate_payment, h, k) (no_calls A P db)
        | inr (token, k) ↦
            elim (Bool-cases (str_eq (auth.generate_password cfg.shortcode cfg.passkey).0 "")) [
              | inl empty ↦ rw (initiate_payment, h, k, empty) (no_calls A P db)
              | inr set ↦
                  rw (initiate_payment, h, k, set) (create-IsRun req phone token _ _ id now db)
            ]
      ]
    ]

  module _ (cfg : Config) (auth : TokenProvider) (others : Session → List Call)
      (allowed : (s : Session) → All P (others s))
      (answered : (c code desc : String)
        → auth.query_stk_status cfg.shortcode cfg.passkey c ≡ ok (code, desc)
        → (s : Session) → P (fire s.id s.state (query_result_code_to_event code) none)) where
    recover_one-IsRun :
        (s : Session) (db : A.Db)
        → IsRun A P db (recover_one A cfg auth (λ s. run A (others s)) s db)
    unfolding recover_one
    recover_one-IsRun s db = elim (Bool-cases (str_eq s.checkout_request_id "")) [
      | inl unset ↦ rw (recover_one, unset) (no_calls A P db)
      | inr set ↦
          elim (Result-cases
            (auth.query_stk_status cfg.shortcode cfg.passkey s.checkout_request_id)) [
              | inl (e, h) ↦ rw (recover_one, set, h) (no_calls A P db)
              | inr ((code, desc), h) ↦
                  rw (recover_one, set, h)
                    (IsRun-trans A P (run_of A P (others s) (allowed s) db) (
                      fired s.id s.state (query_result_code_to_event code) none
                        (answered s.checkout_request_id code desc h s) (run A (others s) db)))
            ]
    ]

    recover_all-IsRun :
        (l : List Session) (db : A.Db)
        → IsRun A P db (recover_all A cfg auth (λ s. run A (others s)) l db)
    unfolding recover_all
    recover_all-IsRun [] db = no_calls A P db
    recover_all-IsRun (s ∷ l) db =
        IsRun-trans A P (recover_one-IsRun s db)
          (recover_all-IsRun l (recover_one A cfg auth (λ s. run A (others s)) s db))

    pub run_recovery-IsRun :
        (now : Time) (db : A.Db)
        → IsRun A P db (run_recovery A cfg auth now (λ s. run A (others s)) db)
    unfolding run_recovery
    run_recovery-IsRun now db =
        elim (Result-cases (A.list_pending (now -ℤ cfg.query_threshold) db)) [
          | inl (e, h) ↦ rw (run_recovery, h) (no_calls A P db)
          | inr (l, h) ↦ rw (run_recovery, h) (recover_all-IsRun l db)
        ]

    pub cleanup_tick-IsRun :
        (rest : List Call)
        → All P rest
        → (now later : Time) (db : A.Db)
        → IsRun A P db (cleanup_tick A cfg auth now later (λ s. run A (others s)) (run A rest) db)
    unfolding cleanup_tick
    cleanup_tick-IsRun rest allowed' now later db =
        let db1 = run_recovery A cfg auth now (λ s. run A (others s)) db in
        IsRun-trans A P (run_recovery-IsRun now db)
          (IsRun-trans A P (run_of A P rest allowed' db1) (expired later (run A rest db1)))

  pub handle_callback-IsRun :
      (checkout_id : String) (code : ℤ) (u : Option Update) (others : List Call)
      → All P others
      → ((s : Session) → P (fire s.id s.state (result_code_to_event code) u))
      → (db : A.Db) → IsRun A P db (handle_callback A checkout_id code u (run A others) db).1
  unfolding handle_callback
  handle_callback-IsRun checkout_id code u others allowed reported db =
      elim (Result-cases (A.get_by_checkout_id checkout_id db)) [
        | inl (e, h) ↦ rw (handle_callback, h) (no_calls A P db)
        | inr (s, h) ↦
            rw (handle_callback, h)
              (IsRun-trans A P (run_of A P others allowed db)
                (fired s.id s.state (result_code_to_event code) u (reported s) (run A others db)))
      ]

  pub expire_after-IsRun :
      (w : Wake A) (id : String) (db : A.Db) → IsRun A P db (expire_after A w id db)
  unfolding expire_after
  expire_after-IsRun elapsed id db = fired_free id stk_pushed ttl_expired none refl db
  expire_after-IsRun stop_closed id db = no_calls A P db
