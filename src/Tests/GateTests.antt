-- ===== src/Tests/GateTests.antt =====
-- x402/x402.go, over the in-memory adapter.
use Prim.Native.String.{◌++◌}
use malipo.Base.{str_eq, if◌then◌else◌}
use malipo.Base.{ℕ, String, ◌≡◌, ◌≢◌, refl, ◌↔◌, true, none, some, [], ◌∷◌, arith, eq_iff}
use malipo.Base.Int.{pos}
use malipo.Base.Lists.{codes}
use malipo.Base.Map.{lookup, insert}
use malipo.Store.State.{stk_pushed, confirmed, consumed, state_eq, is_terminal}
use malipo.Store.Error.{Result, ok}
use malipo.Store.Adapter.{SetsState}
use malipo.Memory.Defs.{create, transition}
use malipo.Memory.Contract.{memory_adapter, memory_laws, state_of}
use malipo.Session.Machine.{next_state}
use malipo.Session.Manager.{initiate_payment, create_and_push, new_session, push_and_record}
use malipo.Session.Phone.{normalize_phone}
use malipo.Session.Trace.Safe.{safe}
use malipo.X402.{write_402, served, Request, Response402, GateOptions, Gate, redeem, serve_gated}
use malipo.X402.Release.{redeem_served_iff}
use malipo.X402.Replies.{serve_gated_served, serve_gated_json}
use malipo.Tests.Fixtures.{store_in, store_in-IsValid, config, accepting}

abbrev s1 : String
s1 = "s1"

abbrev bare : String
bare = ""

set : s1 ≢ bare
set h = ground (arith, eq_iff s1 bare)

redeem_served_iff_example :
    ((redeem memory_adapter "s1" (pos 50) (λ m. m) (store_in confirmed)).0 ≡ served)
    ↔ (state_of (store_in confirmed) "s1" ≡ some confirmed)
unfolding memory_laws
redeem_served_iff_example =
    redeem_served_iff memory_adapter memory_laws "s1" (pos 50) (store_in confirmed)
      (store_in-IsValid confirmed) set

confirmed_served : (redeem memory_adapter "s1" (pos 50) (λ m. m) (store_in confirmed)).0 ≡ served
unfolding lookup
confirmed_served = redeem_served_iff_example.1 refl

abbrev options : GateOptions
options = record {
  amount = pos 100;
  currency = "KES";
  description = "premium";
  shortcode = "174379";
  manager = some config;
  phone_extractor = some (λ r. ok (codes (r.header "X-Phone")));
}

abbrev pub gate : Gate
gate = record { opts = options; manager = config; extract = λ r. ok (codes (r.header "X-Phone")) }

abbrev pub marshal : Response402 → Result String
marshal r = ok "body"

abbrev pub request_with : String → Request
request_with proof = record {
  method = "GET";
  header = λ name.
      if str_eq name "X-PAYMENT" then proof else if str_eq name "X-Phone" then "0712345678" else "";
  tls = true;
  host = "example.com";
  request_uri = "/premium";
  body = [];
}

serve_gated_served_example :
    let out =
      serve_gated memory_adapter marshal gate accepting
        (request_with "s1")
        "s2"
        (pos 50)
        (λ m. m)
        (store_in confirmed) in
    (s1 ≢ bare)
    × (state_of (store_in confirmed) "s1" ≡ some confirmed)
    × SetsState (state_of (store_in confirmed)) (state_of out.1) "s1" consumed
unfolding memory_laws serve_gated
serve_gated_served_example =
    serve_gated_served memory_adapter (safe memory_adapter memory_laws) marshal gate accepting
      (request_with "s1") "s2" (pos 50) (λ m. m) (store_in confirmed) (store_in-IsValid confirmed)
      confirmed_served

abbrev payment_required : ℕ
payment_required = 402

serve_gated_json_example :
    let out =
      serve_gated memory_adapter marshal gate accepting
        (request_with "")
        "s2"
        (pos 50)
        (λ m. m)
        (store_in confirmed) in
    (bare ≡ bare)
    × (payment_required ≡ payment_required)
    × (marshal (record {
      accepts =
          record {
            scheme = "mpesa";
            network = "safaricom-ke";
            amount = pos 100;
            currency = "KES";
            resource = "https" ++ "://" ++ "example.com" ++ "/premium";
            description = "premium";
            pay_to = "174379";
            session_id = "s2";
            retry_after = 5;
          }
          ∷ [];
      error = "Payment required";
    })
        ≡ ok "body")
    × (state_of (store_in confirmed) "s2" ≡ none)
    × (state_of out.1 "s2" ≡ some stk_pushed)
unfolding memory_laws serve_gated initiate_payment normalize_phone create_and_push create lookup
    new_session push_and_record malipo.Session.Manager.transition next_state transition insert
    is_terminal state_eq write_402
serve_gated_json_example =
    serve_gated_json memory_adapter memory_laws marshal gate accepting (request_with "") "s2"
      (pos 50) (λ m. m) (store_in confirmed) refl
