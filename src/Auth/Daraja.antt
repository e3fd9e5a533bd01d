-- ===== src/Auth/Daraja.antt =====
-- auth/daraja.go: the three calls of the Daraja API. HTTP, JSON, base64 and the rendering of numbers are
-- outside: their answers are a parameter.
use Prim.Native.String.{◌++◌}
use malipo.Base.{ℕ, String, not, Option, List, [], ◌∷◌, str_eq, ◌==◌}
use malipo.Base.Int.{ℤ}
use malipo.Store.Session.{Bytes, Time, StkPushRequest}
use malipo.Store.Error.{Result, ok, other, ◌>>=◌, ◌>>◌, wrap, reject_if}
use malipo.Session.Token.{TokenProvider}
use malipo.Auth.{Config, Cache, base_url, get_access_token, generate_password}

-- The body of the push request; `party_a` and `phone_number` are the same text.
pub record StkPushBody : Type 0 where
  pub business_short_code : String
  pub password : String
  pub timestamp : String
  pub transaction_type : String
  pub amount : String
  pub party_a : Bytes
  pub party_b : String
  pub phone_number : Bytes
  pub callback_url : String
  pub account_reference : String
  pub transaction_desc : String

unfoldable pub push_body : (ℤ → String) → StkPushRequest → StkPushBody
push_body format_int req = record {
  business_short_code = req.shortcode;
  password = req.password;
  timestamp = req.timestamp;
  transaction_type = "CustomerPayBillOnline";
  amount = format_int req.amount;
  party_a = req.phone;
  party_b = req.shortcode;
  phone_number = req.phone;
  callback_url = req.callback_url;
  account_reference = req.reference;
  transaction_desc = req.desc;
}

pub record StkQueryBody : Type 0 where
  pub business_short_code : String
  pub password : String
  pub timestamp : String
  pub checkout_request_id : String

-- `stkPushResponse`
pub record StkPushResponse : Type 0 where
  pub checkout_request_id : String
  pub merchant_request_id : String
  pub response_code : String
  pub response_description : String

-- A request as it is handed to the HTTP client; "" is no body.
pub record HttpRequest : Type 0 where
  pub method : String
  pub url : String
  pub headers : List (String × String)
  pub body : String

-- What the libraries, the clock and the network answer during one call of a method.
pub record Outside : Type 0 where
  pub encode_base64 : String → String
  pub format_int : ℤ → String
  pub parse_int : String → Option ℤ
  pub show_status : ℕ → String
  pub encode_push : StkPushBody → Result String
  pub encode_query : StkQueryBody → Result String
  -- `http.NewRequestWithContext`
  pub build : HttpRequest → Result (Unit {0})
  -- `Do`: the status and the body.
  pub send : HttpRequest → Result (ℕ × String)
  -- The token and its lifetime.
  pub decode_token : String → Result (String × String)
  pub decode_push : String → Result StkPushResponse
  -- The result code and its description.
  pub decode_query : String → Result (String × String)
  -- The local time of Nairobi, `none` if the zone is unknown.
  pub nairobi : Option String
  pub first_check : Time
  pub second_check : Time
  pub now : Time

module _ (W : Outside) (cfg : Config) where
  abbrev pub token_request : HttpRequest
  token_request = record {
    method = "GET";
    url = base_url cfg.environment ++ "/oauth/v1/generate?grant_type=client_credentials";
    headers =
        (
          "Authorization",
          "Basic " ++ W.encode_base64 (cfg.consumer_key ++ ":" ++ cfg.consumer_secret),
        )
        ∷ [];
    body = "";
  }

  -- `fetchToken`
  unfoldable pub fetch_token : Result (String × String)
  fetch_token = do
    wrap "fetchToken: failed to build request: " (W.build token_request)
    (status, body) ← wrap "fetchToken: request failed: " (W.send token_request)
    reject_if (not (status == 200))
        (other ("fetchToken: unexpected status " ++ W.show_status status))
    wrap "fetchToken: failed to decode response: " (W.decode_token body)

  abbrev pub post_request : String → String → String → HttpRequest
  post_request path token body = record {
    method = "POST";
    url = base_url cfg.environment ++ path;
    headers = ("Authorization", "Bearer " ++ token) ∷ ("Content-Type", "application/json") ∷ [];
    body = body;
  }

  -- `SendSTKPush`
  unfoldable pub send_stk_push : StkPushRequest → Result (String × String)
  unfolding push_body
  send_stk_push req = do
    text ← wrap "sendSTKPush: encode failed: " (W.encode_push (push_body W.format_int req))
    let request = post_request "/mpesa/stkpush/v1/processrequest" req.token text
    wrap "sendSTKPush: request build failed: " (W.build request)
    (status, body) ← wrap "sendSTKPush: request failed: " (W.send request)
    reject_if (not (status == 200))
        (other ("sendSTKPush: unexpected status " ++ W.show_status status))
    result ← wrap "sendSTKPush: decode failed: " (W.decode_push body)
    ok (result.checkout_request_id, result.merchant_request_id)

  -- `GetAccessToken` with `fetchToken` behind it; `between` is what others did between the two locks.
  unfoldable pub access_token : (Cache → Cache) → Cache → Result String × Cache
  access_token between c =
      get_access_token W.parse_int fetch_token W.first_check W.second_check W.now between c

  abbrev pub query_body : String → String → String → String → StkQueryBody
  query_body shortcode password timestamp checkout_id = record {
    business_short_code = shortcode;
    password = password;
    timestamp = timestamp;
    checkout_request_id = checkout_id;
  }

  -- `QuerySTKStatus` once it has its token.
  unfoldable pub query_with : String → String → String → String → Result (String × String)
  query_with shortcode passkey checkout_id token =
      let (password, timestamp) = generate_password W.encode_base64 W.nairobi shortcode passkey in
      do
        reject_if (str_eq password "") (other "querySTKStatus: failed to generate password")
        text ←
            wrap "querySTKStatus: encode failed: "
              (W.encode_query (query_body shortcode password timestamp checkout_id))
        let request = post_request "/mpesa/stkpushquery/v1/query" token text
        wrap "querySTKStatus: request build failed: " (W.build request)
        (status, body) ← wrap "querySTKStatus: request failed: " (W.send request)
        reject_if (not (status == 200))
            (other ("querySTKStatus: unexpected status " ++ W.show_status status))
        wrap "querySTKStatus: decode failed: " (W.decode_query body)

  -- `QuerySTKStatus`
  unfoldable pub query_stk_status :
      (Cache → Cache) → Cache → String → String → String → Result (String × String) × Cache
  query_stk_status between c shortcode passkey checkout_id =
      let (token, c') = access_token between c in
      (
        wrap "querySTKStatus: failed to get token: " token
            >>= query_with shortcode passkey checkout_id,
        c',
      )

  -- The manager as a `session.TokenProvider`, in the state that its cache has when a method is called.
  unfoldable pub provider : (Cache → Cache) → Cache → TokenProvider
  provider between c = record {
    get_access_token = (access_token between c).0;
    generate_password = generate_password W.encode_base64 W.nairobi;
    send_stk_push = send_stk_push;
    query_stk_status = λ shortcode passkey checkout_id.
        (query_stk_status between c shortcode passkey checkout_id).0;
  }
