-- ===== src/Session/Token.antt =====
-- session/token.go: what the manager asks of Daraja. A value of the record holds the answers that the
-- service gives at the time of a call.
use malipo.Base.{String}
use malipo.Store.Session.{StkPushRequest}
use malipo.Store.Error.{Result}

pub record TokenProvider : Type 0 where
  pub get_access_token : Result String
  -- The password and the timestamp for a shortcode and a passkey.
  pub generate_password : String → String → String × String
  -- The checkout ID and the merchant ID.
  pub send_stk_push : StkPushRequest → Result (String × String)
  -- The result code and its description, for a shortcode, a passkey and a checkout ID.
  pub query_stk_status : String → String → String → Result (String × String)
