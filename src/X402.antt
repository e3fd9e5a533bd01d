-- ===== src/X402.antt =====
-- Package x402 (x402/scheme.go, x402/response.go, x402/x402.go): the middleware that gates a handler
-- behind a payment. `json.Marshal` and the wrapped handler are outside; so are the request's parts,
-- of which the middleware reads those below.
pub mod Release
pub mod Replies
use Prim.Native.String.{◌++◌}
use malipo.Base.{ℕ, String, Bool, true, false, Option, none, some, List, [], ◌∷◌}
use malipo.Base.{if◌then◌else◌, str_eq}
use malipo.Base.Int.{ℤ}
use malipo.Store.State.{confirmed, to_string}
use malipo.Store.Session.{Bytes, Time}
use malipo.Store.Error.{Error, Result, ok, err, message}
use malipo.Store.Adapter.{StorageAdapter}
use malipo.Session.Token.{TokenProvider}
use malipo.Session.Manager.{
  Config, PaymentRequest, Initiated, get_status, consume_if_confirmed, initiate_payment,
}

abbrev pub scheme_name : String
scheme_name = "mpesa"

abbrev pub network : String
network = "safaricom-ke"

pub record PaymentRequirements : Type 0 where
  pub scheme : String
  pub network : String
  pub amount : ℤ
  pub currency : String
  pub resource : String
  pub description : String
  pub pay_to : String
  pub session_id : String
  pub retry_after : ℕ

pub record Response402 : Type 0 where
  pub accepts : List PaymentRequirements
  pub error : String

-- What the code and a `PhoneExtractor` can read of a request: its method, the value of each header by its
-- canonical name ("" if there is none; `Host` is not among them), whether it came by TLS, its host, its
-- URI with the query, and its body.
pub record Request : Type 0 where
  pub method : String
  pub header : String → String
  pub tls : Bool
  pub host : String
  pub request_uri : String
  pub body : Bytes

-- `PaymentHeader`
abbrev pub payment_header_name : String
payment_header_name = "X-PAYMENT"

-- `r.Header.Get(PaymentHeader)`
abbrev pub payment_header : Request → String
payment_header r = r.header payment_header_name

-- A bare status, a text by `http.Error`, a JSON body, or what the wrapped handler writes.
pub data Reply : Type 0 where
  status : ℕ → Reply
  text : ℕ → String → Reply
  json : ℕ → String → Reply
  served : Reply

pub record GateOptions : Type 0 where
  pub amount : ℤ
  pub currency : String
  pub description : String
  pub shortcode : String
  pub manager : Option Config
  pub phone_extractor : Option (Request → Result Bytes)

-- `buildRequirements`
unfoldable pub build_requirements : GateOptions → Request → String → PaymentRequirements
build_requirements opts r session_id = record {
  scheme = scheme_name;
  network = network;
  amount = opts.amount;
  currency = opts.currency;
  resource = (if r.tls then "https" else "http") ++ "://" ++ r.host ++ r.request_uri;
  description = opts.description;
  pay_to = opts.shortcode;
  session_id = session_id;
  retry_after = 5;
}

-- `Write402`, with `json.Marshal` given. A failure to write the body is only logged.
unfoldable pub write_402 : (Response402 → Result String) → PaymentRequirements → Reply
write_402 marshal reqs =
    elim (marshal (record { accepts = reqs ∷ []; error = "Payment required" })) [
      | err e ↦ status 500
      | ok body ↦ json 402 body
    ]

-- What `Gate` checks and fills in once, when it is called; `none` is a panic.
pub record Gate : Type 0 where
  pub opts : GateOptions
  pub manager : Config
  pub extract : Request → Result Bytes

unfoldable pub new_gate : GateOptions → Option Gate
new_gate opts = elim opts.manager [
  | none ↦ none
  | some manager ↦ elim opts.phone_extractor [
    | none ↦ none
    | some extract ↦ some (record {
      opts = record opts { currency = if str_eq opts.currency "" then "KES" else opts.currency };
      manager = manager;
      extract = extract;
    })
  ]
]

abbrev pub gate_request : GateOptions → Bytes → PaymentRequest
gate_request opts phone = record {
  phone = phone;
  amount = opts.amount;
  currency = opts.currency;
  reference = "";
  desc = opts.description;
}

module _ (A : StorageAdapter) where
  -- The end of branch 1: the reply to the outcome of the consumption.
  abbrev pub release : Result (Unit {0}) × A.Db → Reply × A.Db
  release (err e, db) = (status 402, db)
  release (ok _, db) = (served, db)

  -- Branch 1: the header holds a session ID. `between` runs between the two calls of the manager.
  unfoldable pub redeem : String → Time → (A.Db → A.Db) → A.Db → Reply × A.Db
  redeem session_id now between db = elim (get_status A session_id db) [
    | err e ↦ (status 402, db)
    | ok (state, _) ↦
        if str_eq state (to_string confirmed)
        then release (consume_if_confirmed A now session_id (between db))
        else (status 402, db)
  ]

  -- The end of branch 3: the reply to the outcome of the initiation.
  abbrev pub demand :
      (Response402 → Result String) → GateOptions → Request → Initiated A → Reply × A.Db
  demand marshal opts r out = elim out.result [
    | err e ↦ (text 500 "payment initiation failed", out.db)
    | ok session_id ↦ (write_402 marshal (build_requirements opts r session_id), out.db)
  ]

  -- The handler that `Gate` returns.
  unfoldable pub serve_gated :
      (Response402 → Result String)
      → Gate
      → TokenProvider
      → Request
      → String
      → Time
      → (A.Db → A.Db)
      → A.Db
      → Reply × A.Db
  serve_gated marshal g auth r id now between db =
      if str_eq (payment_header r) ""
      then elim (g.extract r) [
        | err e ↦ (text 400 (message e), db)
        | ok phone ↦
            demand marshal g.opts r
              (initiate_payment A g.manager auth (gate_request g.opts phone) id now between db)
      ]
      else redeem (payment_header r) now between db
