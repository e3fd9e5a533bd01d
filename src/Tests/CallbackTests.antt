-- ===== src/Tests/CallbackTests.antt =====
-- callback/callback.go, over the in-memory adapter.
use malipo.Base.{String, ◌≡◌, ◌≢◌, refl, ◌↔◌, Option, none, some, List, [], ◌∷◌, arith, eq_iff}
use malipo.Base.Int.{ℤ, pos}
use malipo.Base.Lists.{codes}
use malipo.Base.Map.{lookup}
use malipo.Store.State.{stk_pushed, state_eq}
use malipo.Store.Session.{Bytes}
use malipo.Memory.Defs.{get_by_checkout_id}
use malipo.Memory.Contract.{memory_adapter}
use malipo.Callback.{
  FloatOps, JsonValue, number, text, CallbackItem, StkCallback, CallbackRequest, serve_callback,
}
use malipo.Callback.Status.{serve_callback_200_iff}
use malipo.Callback.Metadata.{serve_callback_confirms, paid}
use malipo.Tests.Fixtures.{session_in, store_in, store_in-IsValid}

-- The numbers of the tests are integers, and the only rendered number is the payer's.
abbrev pub floats : FloatOps
floats = record { Float = ℤ; to_int64 = λ f. f; format_0f = λ f. codes "254712345678" }

abbrev item : String → JsonValue floats → CallbackItem floats
item name value = record { name = name; value = some value }

abbrev receipt_item : CallbackItem floats
receipt_item = item "MpesaReceiptNumber" (text "NLJ7RT61SV")

abbrev items : List (CallbackItem floats)
items =
    item "Amount" (number (pos 100))
    ∷ receipt_item
    ∷ item "PhoneNumber" (number (pos 254712345678))
    ∷ []

abbrev success_with : Option (List (CallbackItem floats)) → StkCallback floats
success_with meta = record {
  merchant_request_id = "m_1";
  checkout_request_id = "ws_1";
  result_code = pos 0;
  result_desc = "ok";
  callback_metadata = meta;
}

abbrev post : CallbackRequest floats
post = record { method = "POST"; body = codes "body" }

abbrev ws_1 : String
ws_1 = "ws_1"

abbrev unset : String
unset = ""

named : ws_1 ≢ unset
named h = ground (arith, eq_iff ws_1 unset)

serve_callback_confirms_example :
    lookup "s1"
      (serve_callback floats memory_adapter
        (λ b. some (success_with (some items)))
        post
        (λ m. m)
        (store_in stk_pushed)).1.sessions
    ≡ some (paid floats (some items) (session_in stk_pushed))
unfolding lookup get_by_checkout_id state_eq
serve_callback_confirms_example =
    serve_callback_confirms floats (λ b. some (success_with (some items))) post
      (store_in stk_pushed) (success_with (some items)) (session_in stk_pushed)
      (store_in-IsValid stk_pushed) refl refl named refl refl refl

abbrev decode : Bytes → Option (StkCallback floats)
decode b = some (success_with none)

serve_callback_200_iff_example :
    ((serve_callback floats memory_adapter decode post (λ m. m) (store_in stk_pushed)).0 ≡ 200) ↔ (
      (post.method ≡ "POST")
      × ((cb : StkCallback floats) × (decode post.body ≡ some cb) × (cb.checkout_request_id ≢ "")))
serve_callback_200_iff_example =
    serve_callback_200_iff floats memory_adapter decode post (λ m. m) (store_in stk_pushed)
