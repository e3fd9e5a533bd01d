-- ===== src/Wiring/Service/Pushed.antt =====
-- session/manager.go: the store behind an initiation in which everything goes well.
use malipo.Base.{String, ◌≡◌, ◌≢◌, refl, ◌∙◌, false, none, some, arith}
use malipo.Base.{str_eq, eq_iff, eq_refl}
use malipo.Store.State.{created, stk_pushed, is_terminal}
use malipo.Store.Session.{Session, Bytes, Time}
use malipo.Store.Error.{ok, err, not_found}
use malipo.Store.Adapter.{StorageAdapter, IsAdapter}
use malipo.Session.Machine.{stk_accepted, next_state}
use malipo.Session.Phone.{normalize_phone}
use malipo.Session.Token.{TokenProvider}
use malipo.Session.Manager.{
  PaymentRequest, Config, new_session, push_request, correlation, transition, push_and_record,
  create_and_push, initiate_payment,
}
use malipo.Session.Manager.Initiate.{accepted_step}
use malipo.Session.Manager.Transition.{transition_on_table}
use malipo.Session.Trace.Methods.{spawned}

module _ (A : StorageAdapter) (L : IsAdapter A) where
  open L use {IsValid, state_of}

  -- A store in which a checkout ID leads to a pushed session.
  pub record IsPushed (db : A.Db) (id c : String) : Type 0 where
    pub valid : IsValid db
    pub session : Session
    pub found : A.get_by_checkout_id c db ≡ ok session
    pub own : session.id ≡ id
    pub pushed : session.state ≡ stk_pushed
    pub held : state_of db id ≡ some stk_pushed

  module _ (cfg : Config) (auth : TokenProvider) (req : PaymentRequest) (id : String) (now : Time)
      (db : A.Db) (c merchant : String) where
    abbrev pub password : String × String
    password = auth.generate_password cfg.shortcode cfg.passkey

    abbrev pub new : Bytes → Session
    new phone = new_session cfg req phone id now

    accepted_path :
        (phone : Bytes) (token : String)
        → (A.create (new phone) db).0 ≡ ok tt
        → normalize_phone req.phone ≡ ok phone
        → auth.get_access_token ≡ ok token
        → password.0 ≢ ""
        → auth.send_stk_push (push_request cfg req phone token password.0 password.1)
          ≡ ok (c, merchant)
        → (initiate_payment A cfg auth req id now (λ d. d) db).db
          ≡ (transition A id created stk_accepted
              (some (correlation c merchant))
              (A.create (new phone) db).1).1
    unfolding initiate_payment create_and_push transition push_and_record next_state
    accepted_path phone token stored p q secret sent =
        rw (initiate_payment, p, q, set, create_and_push, stored, push_and_record, sent)
          (spawned A cfg id (
            transition A id created stk_accepted (some (correlation c merchant))
              (A.create (new phone) db).1))
      where
        set : str_eq password.0 "" ≡ false
        set = ground (arith, eq_iff password.0 "")

    new_stored :
        (phone : Bytes)
        → state_of db id ≡ none
        → ((A.create (new phone) db).0 ≡ ok tt)
          × (state_of (A.create (new phone) db).1 id ≡ some created)
    unfolding new_session
    new_stored phone fresh =
        let (done, moved) = L.create_fresh (new phone) db fresh in
        (done, moved id ∙ rw (eq_refl id))

    new_unindexed :
        (phone : Bytes)
        → IsValid db
        → A.get_by_checkout_id c db ≡ err not_found
        → c ≢ ""
        → A.get_by_checkout_id c (A.create (new phone) db).1 ≡ err not_found
    unfolding new_session
    new_unindexed phone v unindexed named =
        L.create_unindexed c (new phone) db v unindexed (ground (arith, eq_iff "" c))

    -- An initiation in which everything goes well.
    pub initiate_payment-IsPushed :
        (phone : Bytes) (token : String)
        → IsValid db
        → state_of db id ≡ none
        → A.get_by_checkout_id c db ≡ err not_found
        → c ≢ ""
        → normalize_phone req.phone ≡ ok phone
        → auth.get_access_token ≡ ok token
        → password.0 ≢ ""
        → auth.send_stk_push (push_request cfg req phone token password.0 password.1)
          ≡ ok (c, merchant)
        → IsPushed (initiate_payment A cfg auth req id now (λ d. d) db).db id c
    unfolding is_terminal
    initiate_payment-IsPushed phone token v fresh unindexed named p q secret sent =
        let db' = (A.create (new phone) db).1 in
        let (stored, at) = new_stored phone fresh in
        let u = correlation c merchant in
        let valid = L.create-IsValid (new phone) db v in
        let (s, found, own, pushed) =
          L.transition_indexed id created stk_pushed u c db' valid refl at refl
            (new_unindexed phone v unindexed named) in
        rw
          (
            accepted_path phone token stored p q secret sent,
            transition_on_table A id created stk_accepted (some u) db' accepted_step,
          )
          (record {
            valid = L.transition-IsValid id created stk_pushed (some u) db' valid;
            session = s;
            found = found;
            own = own;
            pushed = pushed;
            held =
                (L.transition_met id created stk_pushed (some u) db' refl at).1 id
                ∙ rw (eq_refl id);
          })
