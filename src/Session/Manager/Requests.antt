-- ===== src/Session/Manager/Requests.antt =====
-- session/manager.go: what `InitiatePayment` stores, sends and records, exactly when it returns a session ID.
use malipo.Base.{String, ◌≡◌, ◌≢◌, sym, ◌∙◌, ap, subst, ◌↔◌, inl, inr, false, none, some, arith}
use malipo.Base.{str_eq, eq_iff, if◌then◌else◌, Bool-cases}
use malipo.Base.Int.{◌+ℤ◌}
use malipo.Store.State.{created, stk_pushed}
use malipo.Store.Session.{Session, StkPushRequest, Update, Time, Bytes}
use malipo.Store.Error.{Result-cases, ok}
use malipo.Store.Adapter.{StorageAdapter}
use malipo.Session.Machine.{next_state}
use malipo.Session.Phone.{normalize_phone}
use malipo.Session.Token.{TokenProvider}
use malipo.Session.Manager.{
  PaymentRequest, Config, new_session, push_request, transition, push_and_record, create_and_push,
  initiate_payment,
}

module _ (A : StorageAdapter) (cfg : Config) (auth : TokenProvider) (req : PaymentRequest)
    (id : String) (now : Time) (between : A.Db → A.Db) (db : A.Db) where
  abbrev password : String × String
  password = auth.generate_password cfg.shortcode cfg.passkey

  -- The session of a payment that begins.
  abbrev pub begun : Bytes → Session
  begun phone = record {
    id = id;
    state = created;
    phone = phone;
    amount = req.amount;
    currency = req.currency;
    shortcode = cfg.shortcode;
    checkout_request_id = "";
    merchant_request_id = "";
    mpesa_receipt_number = "";
    confirmed_amount = none;
    confirmed_phone = none;
    created_at = now;
    expires_at = now +ℤ cfg.ttl;
    consumed_at = none;
  }

  -- The push that the payer is asked to confirm.
  abbrev pub asked : Bytes → String → StkPushRequest
  asked phone token = record {
    token = token;
    password = password.0;
    timestamp = password.1;
    phone = phone;
    amount = req.amount;
    shortcode = cfg.shortcode;
    callback_url = cfg.callback_url;
    reference = if str_eq req.reference "" then cfg.account_reference else req.reference;
    desc = if str_eq req.desc "" then cfg.transaction_desc else req.desc;
  }

  -- The two IDs of the push, and nothing else.
  abbrev pub ids_only : String → String → Update
  ids_only c m = record {
    checkout_request_id = some c;
    merchant_request_id = some m;
    mpesa_receipt_number = none;
    confirmed_amount = none;
    confirmed_phone = none;
    consumed_at = none;
  }

  -- All that has to go well, with the store at the end.
  pub record GoesWell (end : A.Db) : Type 0 where
    pub phone : Bytes
    pub token : String
    pub checkout_id : String
    pub merchant_id : String
    pub normalized : normalize_phone req.phone ≡ ok phone
    pub granted : auth.get_access_token ≡ ok token
    pub secret : password.0 ≢ ""
    pub stored : (A.create (begun phone) db).0 ≡ ok tt
    pub accepted : auth.send_stk_push (asked phone token) ≡ ok (checkout_id, merchant_id)
    pub recorded :
        A.transition id created stk_pushed
          (some (ids_only checkout_id merchant_id))
          (between (A.create (begun phone) db).1)
        ≡ (ok tt, end)

  went_well :
      {sid : String}
      → (initiate_payment A cfg auth req id now between db).result ≡ ok sid
      → (sid ≡ id) × GoesWell (initiate_payment A cfg auth req id now between db).db
  unfolding initiate_payment create_and_push push_and_record transition next_state new_session
      push_request
  went_well h = elim (Result-cases (normalize_phone req.phone)) [
    | inl (e, p) ↦ absurd (ground arith)
    | inr (phone, p) ↦ elim (Result-cases auth.get_access_token) [
      | inl (e, q) ↦ absurd (ground arith)
      | inr (token, q) ↦ elim (Bool-cases (str_eq password.0 "")) [
        | inl empty ↦ absurd (ground arith)
        | inr set ↦ elim (Result-cases (A.create (begun phone) db).0) [
          | inl (e, r) ↦ absurd (ground arith)
          | inr (_, r) ↦ elim (Result-cases (auth.send_stk_push (asked phone token))) [
            | inl (e, s) ↦ absurd (ground arith)
            | inr ((c, m), s) ↦
                let last =
                  A.transition id created stk_pushed (some (ids_only c m))
                    (between (A.create (begun phone) db).1) in
                elim (Result-cases last.0) [
                  | inl (e, t) ↦ absurd (ground arith)
                  | inr (_, t) ↦ (
                    ground arith,
                    record {
                      phone = phone;
                      token = token;
                      checkout_id = c;
                      merchant_id = m;
                      normalized = p;
                      granted = q;
                      secret = λ e. ground (arith, eq_iff password.0 "");
                      stored = r;
                      accepted = s;
                      recorded = ground arith;
                    },
                  )
                ]
          ]
        ]
      ]
    ]
  ]

  goes_well :
      {end : A.Db}
      → GoesWell end
      → ((initiate_payment A cfg auth req id now between db).result ≡ ok id)
        × ((initiate_payment A cfg auth req id now between db).db ≡ end)
  unfolding initiate_payment create_and_push push_and_record transition next_state new_session
      push_request
  goes_well w =
      let set : str_eq password.0 "" ≡ false = ground (arith, w.secret, eq_iff password.0 "") in
      ground (arith, w.normalized, w.granted, w.stored, w.accepted, w.recorded)

  -- `InitiatePayment` returns a session ID, and leaves a given store, exactly if: the phone number is
  -- normalized, the token and the password are there, the adapter stores a session with the generated ID
  -- in CREATED, that phone number, the amount and the currency of the request and an expiry at the instant
  -- plus the lifetime, Daraja accepts a push with the token, the password, the phone number, the amount and
  -- the texts of the request or, where they are empty, of the configuration, and then, after what others did
  -- meanwhile, the adapter takes the session from CREATED to STK_PUSHED with the two IDs of the push, and
  -- leaves that store. The ID that is returned is the generated one.
  pub initiate_payment_ok_iff :
      (sid : String) (end : A.Db)
      → let out = initiate_payment A cfg auth req id now between db in
        ((out.result ≡ ok sid) × (out.db ≡ end)) ↔ ((sid ≡ id) × GoesWell end)
  initiate_payment_ok_iff sid end = (
    λ (done, left). let (own, well) = went_well done in (own, subst GoesWell left well),
    λ (own, well). let (done, left) = goes_well well in (done ∙ ap ok (sym own), left),
  )
