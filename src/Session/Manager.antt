-- ===== src/Session/Manager.antt =====
-- session/manager.go and session/ttl.go, over any storage adapter. The manager holds no session state:
-- a method takes the store and returns it. `time.Now()` and the generated ULID are arguments. Where a
-- method makes two calls of the store, other goroutines may run between them: `between` is what they
-- did to the store.
pub mod Transition
pub mod Initiate
pub mod Requests
pub mod Resolve
pub mod Recovery
use malipo.Base.{ℕ, ◌*◌, String, ◌≡◌, Bool, true, false, Option, none, some, List, [], ◌∷◌}
use malipo.Base.{if◌then◌else◌, str_eq}
use malipo.Base.Int.{ℤ, pos, eqb_ℤ, ◌+ℤ◌, ◌-ℤ◌}
use malipo.Store.State.{State, created, stk_pushed, to_string}
use malipo.Store.Session.{Session, Update, StkPushRequest, Time, Duration, Bytes}
use malipo.Store.Error.{Error, Result, ok, err, other, invalid_transition}
use malipo.Store.Adapter.{StorageAdapter}
use malipo.Session.Machine.{
  Event, stk_accepted, stk_rejected, ttl_expired, next_state, result_code_to_event,
  query_result_code_to_event,
}
use malipo.Session.Phone.{normalize_phone}
use malipo.Session.Token.{TokenProvider}

pub record PaymentRequest : Type 0 where
  pub phone : Bytes
  pub amount : ℤ
  pub currency : String
  pub reference : String
  pub desc : String

pub record Config : Type 0 where
  pub shortcode : String
  pub passkey : String
  pub callback_url : String
  pub ttl : Duration
  pub query_threshold : Duration
  pub account_reference : String
  pub transaction_desc : String

-- `time.Second`
abbrev pub second : ℕ
second = 1000000000

-- The defaults that `NewManager` fills in.
unfoldable pub with_defaults : Config → Config
with_defaults cfg = record cfg {
  ttl = if eqb_ℤ cfg.ttl (pos 0) then pos (90 * second) else cfg.ttl;
  query_threshold =
      if eqb_ℤ cfg.query_threshold (pos 0) then pos (60 * second) else cfg.query_threshold;
}

-- An override if it is set, else the default.
abbrev pub override : String → String → String
override default text = if str_eq text "" then default else text

-- The record that `InitiatePayment` stores.
unfoldable pub new_session : Config → PaymentRequest → Bytes → String → Time → Session
new_session cfg req phone id now = record {
  id = id;
  state = created;
  phone = phone;
  amount = req.amount;
  currency = req.currency;
  shortcode = cfg.shortcode;
  checkout_request_id = "";
  merchant_request_id = "";
  mpesa_receipt_number = "";
  confirmed_amount = none;
  confirmed_phone = none;
  created_at = now;
  expires_at = now +ℤ cfg.ttl;
  consumed_at = none;
}

-- The request that it sends.
unfoldable pub push_request :
    Config → PaymentRequest → Bytes → String → String → String → StkPushRequest
push_request cfg req phone token password timestamp = record {
  token = token;
  password = password;
  timestamp = timestamp;
  phone = phone;
  amount = req.amount;
  shortcode = cfg.shortcode;
  callback_url = cfg.callback_url;
  reference = override cfg.account_reference req.reference;
  desc = override cfg.transaction_desc req.desc;
}

abbrev pub correlation : String → String → Update
correlation checkout_id merchant_id = record {
  checkout_request_id = some checkout_id;
  merchant_request_id = some merchant_id;
  mpesa_receipt_number = none;
  confirmed_amount = none;
  confirmed_phone = none;
  consumed_at = none;
}

-- `Stop` on the channel `stopCleanup`, closed or not; `none` is the panic of closing a closed channel.
unfoldable pub stop : Bool → Option Bool
stop closed = if closed then none else some true

module _ (A : StorageAdapter) where
  -- `GetStatus`
  unfoldable pub get_status : String → A.Db → Result (String × Time)
  get_status id db =
      if str_eq id ""
      then err (other "missing session id")
      else elim (A.get id db) [ err e ↦ err e | ok s ↦ ok (to_string s.state, s.expires_at) ]

  -- `transition`
  unfoldable pub transition :
      String → State → Event → Option Update → A.Db → Result (Unit {0}) × A.Db
  transition id from event u db = elim (next_state from event) [
    | none ↦ (err invalid_transition, db)
    | some to ↦ A.transition id from to u db
  ]

  -- What `InitiatePayment` returns, the store, and the goroutine that it spawns: the session and the
  -- delay of `expireAfter`.
  pub record Initiated : Type 0 where
    pub result : Result String
    pub db : A.Db
    pub timer : Option (String × Duration)

  -- A return with an error.
  abbrev pub stopped_with : Error → A.Db → Initiated
  stopped_with e db = record { result = err e; db = db; timer = none }

  -- Step 8: the goroutine is spawned if the second write went through.
  abbrev pub spawn_timer : Config → String → Result (Unit {0}) × A.Db → Initiated
  spawn_timer cfg id (err e, db) = stopped_with e db
  spawn_timer cfg id (ok _, db) = record { result = ok id; db = db; timer = some (id, cfg.ttl) }

  -- Steps 6 to 8, once the record is stored: the push, the second write, and the goroutine.
  unfoldable pub push_and_record :
      Config → TokenProvider → StkPushRequest → String → (A.Db → A.Db) → A.Db → Initiated
  push_and_record cfg auth request id between db = elim (auth.send_stk_push request) [
    | err e ↦ stopped_with e (transition id created stk_rejected none (between db)).1
    | ok (checkout_id, merchant_id) ↦ spawn_timer cfg id (
        transition id created stk_accepted (some (correlation checkout_id merchant_id))
          (between db))
  ]

  -- Step 5: create the record.
  unfoldable pub create_and_push :
      Config
      → TokenProvider
      → PaymentRequest
      → Bytes
      → String
      → String
      → String
      → String
      → Time
      → (A.Db → A.Db)
      → A.Db
      → Initiated
  create_and_push cfg auth req phone token password timestamp id now between db =
      let (r, db') = A.create (new_session cfg req phone id now) db in
      elim r [
        | err e ↦ stopped_with e db'
        | ok _ ↦
            push_and_record cfg auth (push_request cfg req phone token password timestamp) id
              between db'
      ]

  -- `InitiatePayment`; `between` runs while the push is under way.
  unfoldable pub initiate_payment :
      Config → TokenProvider → PaymentRequest → String → Time → (A.Db → A.Db) → A.Db → Initiated
  initiate_payment cfg auth req id now between db = elim (normalize_phone req.phone) [
    | err e ↦ stopped_with e db
    | ok phone ↦ elim auth.get_access_token [
      | err e ↦ stopped_with e db
      | ok token ↦
          let (password, timestamp) = auth.generate_password cfg.shortcode cfg.passkey in
          if str_eq password ""
          then stopped_with (other "failed to generate password") db
          else create_and_push cfg auth req phone token password timestamp id now between db
    ]
  ]

  -- `HandleCallback`
  unfoldable pub handle_callback :
      String → ℤ → Option Update → (A.Db → A.Db) → A.Db → Result (Unit {0}) × A.Db
  handle_callback checkout_id code u between db = elim (A.get_by_checkout_id checkout_id db) [
    | err e ↦ (err e, db)
    | ok s ↦ transition s.id s.state (result_code_to_event code) u (between db)
  ]

  abbrev pub drop_session : Result Session → Result (Unit {0})
  drop_session (ok _) = ok tt
  drop_session (err e) = err e

  -- `ConsumeIfConfirmed`
  unfoldable pub consume_if_confirmed : Time → String → A.Db → Result (Unit {0}) × A.Db
  consume_if_confirmed now id db =
      let (r, db') = A.consume_if_confirmed now id db in (drop_session r, db')

  -- The `select` of `expireAfter`: the timer or the closed channel.
  pub data Wake : Type 0 where
    elapsed stop_closed : Wake

  -- `expireAfter`; its error is dropped.
  unfoldable pub expire_after : Wake → String → A.Db → A.Db
  expire_after elapsed id db = (transition id stk_pushed ttl_expired none db).1
  expire_after stop_closed id db = db

  -- The loop body of `runRecovery` for one listed session. `between` is what ran since the listing.
  unfoldable pub recover_one :
      Config → TokenProvider → (Session → A.Db → A.Db) → Session → A.Db → A.Db
  recover_one cfg auth between s db =
      if str_eq s.checkout_request_id ""
      then db
      else elim (auth.query_stk_status cfg.shortcode cfg.passkey s.checkout_request_id) [
        | err e ↦ db
        | ok (code, desc) ↦
            (transition s.id s.state (query_result_code_to_event code) none (between s db)).1
      ]

  unfoldable pub recover_all :
      Config → TokenProvider → (Session → A.Db → A.Db) → List Session → A.Db → A.Db
  recover_all cfg auth between [] db = db
  recover_all cfg auth between (s ∷ l) db =
      recover_all cfg auth between l (recover_one cfg auth between s db)

  -- `runRecovery`
  unfoldable pub run_recovery :
      Config → TokenProvider → Time → (Session → A.Db → A.Db) → A.Db → A.Db
  run_recovery cfg auth now between db = elim (A.list_pending (now -ℤ cfg.query_threshold) db) [
    | err e ↦ db
    | ok l ↦ recover_all cfg auth between l db
  ]

  -- One tick of the cleanup goroutine: the recovery pass, then the expiry pass at a later instant. `rest`
  -- is what ran between the last call of the recovery pass and the expiry pass.
  unfoldable pub cleanup_tick :
      Config → TokenProvider → Time → Time → (Session → A.Db → A.Db) → (A.Db → A.Db) → A.Db → A.Db
  cleanup_tick cfg auth now later between rest db =
      (A.expire_stale later (rest (run_recovery cfg auth now between db))).1
