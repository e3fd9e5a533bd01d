-- ===== src/Callback.antt =====
-- Package callback (callback/callback.go): the handler of Safaricom's callbacks. `encoding/json` is
-- outside: decoding a body is an argument, and its result is the Go struct, in which an absent field
-- is the zero value. A JSON number is a float64, of which only two operations are used.
pub mod Status
pub mod Metadata
use malipo.Base.{ℕ, String, Bool, true, false, not, ◌&&◌, Option, none, some, List, [], ◌∷◌}
use malipo.Base.{if◌then◌else◌, str_eq, is_some}
use malipo.Base.Int.{ℤ, pos, eqb_ℤ}
use malipo.Store.Session.{Bytes, Update}
use malipo.Store.Adapter.{StorageAdapter}
use malipo.Session.Manager.{Config, handle_callback}

-- `handler`
pub record Handler : Type 0 where
  pub manager : Config

-- `NewHandler`; `none` is its panic.
unfoldable pub new_handler : Option Config → Option Handler
new_handler none = none
new_handler (some m) = some (record { manager = m })

-- `float64` with the conversion to `int64` and the rendering by the verb `%.0f`.
pub record FloatOps : Type 1 where
  pub Float : Type 0
  pub to_int64 : Float → ℤ
  pub format_0f : Float → Bytes

module _ (F : FloatOps) where
  -- A JSON value held in an `any`; nil is handled by `Option`. What is inside an array or an object is
  -- never looked at.
  pub data JsonValue : Type 0 where
    number : F.Float → JsonValue
    text : String → JsonValue
    boolean : Bool → JsonValue
    array object : JsonValue

  pub record CallbackItem : Type 0 where
    pub name : String
    pub value : Option JsonValue

  -- `stkCallback`, with the items of `CallbackMetadata` if it is not nil.
  pub record StkCallback : Type 0 where
    pub merchant_request_id : String
    pub checkout_request_id : String
    pub result_code : ℤ
    pub result_desc : String
    pub callback_metadata : Option (List CallbackItem)

  -- `itemValue`
  unfoldable pub item_value : List CallbackItem → String → Option JsonValue
  item_value [] name = none
  item_value (item ∷ items) name =
      let rest = item_value items name in if str_eq item.name name then item.value else rest

  -- The three blocks of Step 4: a value of another type leaves the zero value.
  abbrev pub as_amount : Option JsonValue → ℤ
  as_amount (some (number f)) = F.to_int64 f
  as_amount _ = pos 0

  abbrev pub as_receipt : Option JsonValue → String
  as_receipt (some (text s)) = s
  as_receipt _ = ""

  abbrev pub as_phone : Option JsonValue → Bytes
  as_phone (some (number f)) = b'+' ∷ F.format_0f f
  as_phone _ = []

  abbrev pub metadata_update : List CallbackItem → Update
  metadata_update items = record {
    checkout_request_id = none;
    merchant_request_id = none;
    mpesa_receipt_number = some (as_receipt (item_value items "MpesaReceiptNumber"));
    confirmed_amount = some (as_amount (item_value items "Amount"));
    confirmed_phone = some (as_phone (item_value items "PhoneNumber"));
    consumed_at = none;
  }

  -- Step 4: an update only for result code 0 with metadata.
  unfoldable pub build_update : StkCallback → Option Update
  build_update cb = elim cb.callback_metadata [
    | none ↦ none
    | some items ↦ if eqb_ℤ cb.result_code (pos 0) then some (metadata_update items) else none
  ]

  pub record CallbackRequest : Type 0 where
    pub method : String
    pub body : Bytes

  -- `ServeHTTP`: the status written, and the store.
  unfoldable pub serve_callback :
      (A : StorageAdapter)
      → (Bytes → Option StkCallback)
      → CallbackRequest
      → (A.Db → A.Db)
      → A.Db
      → ℕ × A.Db
  serve_callback A decode r between db =
      if not (str_eq r.method "POST") then (405, db) else elim (decode r.body) [
        | none ↦ (400, db)
        | some cb ↦ if str_eq cb.checkout_request_id "" then (400, db) else (
          200,
          (handle_callback A cb.checkout_request_id cb.result_code (build_update cb) between db).1,
        )
      ]
