-- ===== src/Tests/Fixtures.antt =====
-- The data of the tests.
use malipo.Base.{refl, none, [], ◌∷◌, arith, eq_iff}
use malipo.Base.Int.{pos}
use malipo.Base.Lists.{codes}
use malipo.Base.Map.{lookup}
use malipo.Store.State.{State}
use malipo.Store.Session.{Session, Bytes}
use malipo.Store.Error.{ok}
use malipo.Session.Token.{TokenProvider}
use malipo.Session.Manager.{Config, PaymentRequest}
use malipo.Memory.Defs.{Memory}
use malipo.Memory.Invariant.{IsValid}

abbrev pub phone : Bytes
phone = codes "+254712345678"

-- The nine digits of the subscriber.
abbrev pub subscriber : Bytes
subscriber = codes "712345678"

abbrev pub session_in : State → Session
session_in t = record {
  id = "s1";
  state = t;
  phone = phone;
  amount = pos 100;
  currency = "KES";
  shortcode = "174379";
  checkout_request_id = "ws_1";
  merchant_request_id = "m_1";
  mpesa_receipt_number = "";
  confirmed_amount = none;
  confirmed_phone = none;
  created_at = pos 10;
  expires_at = pos 100;
  consumed_at = none;
}

-- A store that holds one session, under its checkout ID.
abbrev pub store_in : State → Memory
store_in t = record { sessions = ("s1", session_in t) ∷ []; by_checkout = ("ws_1", "s1") ∷ [] }

pub store_in-IsValid : (t : State) → IsValid (store_in t)
unfolding lookup
store_in-IsValid t = record {
  keyed = λ k s h. ground (arith, eq_iff "s1" k);
  indexed = λ c id h. ground (arith, eq_iff "ws_1" c, eq_iff "s1" id);
  distinct = (refl, tt);
}

abbrev pub config : Config
config = record {
  shortcode = "174379";
  passkey = "key";
  callback_url = "https://example.com/callback";
  ttl = pos 90;
  query_threshold = pos 60;
  account_reference = "ref";
  transaction_desc = "desc";
}

abbrev pub payment : PaymentRequest
payment = record {
  phone = codes "0712 345-678";
  amount = pos 100;
  currency = "KES";
  reference = "";
  desc = "";
}

-- A service that accepts every push, and answers every query with "0".
abbrev pub accepting : TokenProvider
accepting = record {
  get_access_token = ok "token";
  generate_password = λ shortcode passkey. ("password", "20250101000000");
  send_stk_push = λ request. ok ("ws_2", "m_2");
  query_stk_status = λ shortcode passkey checkout_id. ok ("0", "done");
}
