-- ===== src/Store/Session.antt =====
-- store/session.go: the record of one payment attempt, the partial update that a transition
-- writes, and the request for an STK Push.
use malipo.Base.{ℕ, String, List, Option}
use malipo.Base.Int.{ℤ}
use malipo.Store.State.{State}

-- A `time.Time` is its distance from the Unix epoch in nanoseconds, a `time.Duration` is a number of
-- nanoseconds. Both are unbounded here.
abbrev pub Time : Type 0
Time = ℤ

abbrev pub Duration : Type 0
Duration = ℤ

-- A Go string that the program reads byte by byte. Those that it only compares are `String`.
abbrev pub Bytes : Type 0
Bytes = List ℕ

-- A pointer field that may be nil is an `Option`.
pub record Session : Type 0 where
  pub id : String
  pub state : State
  pub phone : Bytes
  pub amount : ℤ
  pub currency : String
  pub shortcode : String
  pub checkout_request_id : String
  pub merchant_request_id : String
  pub mpesa_receipt_number : String
  pub confirmed_amount : Option ℤ
  pub confirmed_phone : Option Bytes
  pub created_at : Time
  pub expires_at : Time
  pub consumed_at : Option Time

pub record Update : Type 0 where
  pub checkout_request_id : Option String
  pub merchant_request_id : Option String
  pub mpesa_receipt_number : Option String
  pub confirmed_amount : Option ℤ
  pub confirmed_phone : Option Bytes
  pub consumed_at : Option Time

pub record StkPushRequest : Type 0 where
  pub token : String
  pub password : String
  pub timestamp : String
  pub phone : Bytes
  pub amount : ℤ
  pub shortcode : String
  pub callback_url : String
  pub reference : String
  pub desc : String
