-- ===== src/Auth/Requests.antt =====
-- When the calls of the Daraja API succeed, and with what.
use Prim.Native.String.{◌++◌}
use malipo.Base.{[], ◌∷◌, ℕ, String, ◌≡◌, ◌∙◌, ◌↔◌, inl, inr, arith}
use malipo.Store.Session.{StkPushRequest}
use malipo.Store.Error.{Result, Result-cases, ok}
use malipo.Auth.{Config, base_url}
use malipo.Auth.Daraja.{
  Outside, HttpRequest, StkPushResponse, push_body, post_request, send_stk_push,
}

-- An exchange that went well: the body was encoded and the request built, the answer had the status 200
-- and its body decoded.
pub record Exchanged {ℓ κ} {B : Type ℓ} {X : Type κ} (encode : B → Result String)
    (build : HttpRequest → Result (Unit {0})) (send : HttpRequest → Result (ℕ × String))
    (decode : String → Result X) (request : String → HttpRequest) (b : B) (x : X) : Type κ where
  pub text : String
  pub answer : String
  pub encoded : encode b ≡ ok text
  pub built : build (request text) ≡ ok tt
  pub sent : send (request text) ≡ ok (200, answer)
  pub decoded : decode answer ≡ ok x

module _ (W : Outside) (cfg : Config) (req : StkPushRequest) where
  abbrev pub PushExchanged : StkPushResponse → Type 0
  PushExchanged =
      Exchanged W.encode_push W.build W.send W.decode_push
        (λ (text : String). record {
          method = "POST";
          url = base_url cfg.environment ++ "/mpesa/stkpush/v1/processrequest";
          headers =
              ("Authorization", "Bearer " ++ req.token) ∷ ("Content-Type", "application/json") ∷ [];
          body = text;
        })
        (record {
          business_short_code = req.shortcode;
          password = req.password;
          timestamp = req.timestamp;
          transaction_type = "CustomerPayBillOnline";
          amount = W.format_int req.amount;
          party_a = req.phone;
          party_b = req.shortcode;
          phone_number = req.phone;
          callback_url = req.callback_url;
          account_reference = req.reference;
          transaction_desc = req.desc;
        })

  -- What has to go well for a push to be taken as accepted.
  push_sent :
      {c m : String}
      → send_stk_push W cfg req ≡ ok (c, m)
      → (result : StkPushResponse) × PushExchanged result
        × (result.checkout_request_id ≡ c)
        × (result.merchant_request_id ≡ m)
  unfolding send_stk_push push_body
  push_sent h = elim (Result-cases (W.encode_push (push_body W.format_int req))) [
    | inl (e, p) ↦ absurd (ground arith)
    | inr (text, p) ↦
        let request = post_request W cfg "/mpesa/stkpush/v1/processrequest" req.token text in
        elim (Result-cases (W.build request)) [
          | inl (e, q) ↦ absurd (ground arith)
          | inr (_, q) ↦ elim (Result-cases (W.send request)) [
            | inl (e, r) ↦ absurd (ground arith)
            | inr ((status, answer), r) ↦ elim (Result-cases (W.decode_push answer)) [
              | inl (e, d) ↦ absurd (ground arith)
              | inr (result, d) ↦ (
                result,
                record {
                  text = text;
                  answer = answer;
                  encoded = p;
                  built = q;
                  sent = ground arith;
                  decoded = d;
                },
                ground arith,
                ground arith,
              )
            ]
          ]
        ]
  ]

  push_taken :
      (result : StkPushResponse)
      → PushExchanged result
      → send_stk_push W cfg req ≡ ok (result.checkout_request_id, result.merchant_request_id)
  unfolding send_stk_push push_body
  push_taken result x = ground (arith, x.encoded, x.built, x.sent, x.decoded)

  -- `SendSTKPush` returns two IDs exactly if the body, with the fields of the request and its phone number
  -- as the payer and the shortcode as the payee, was encoded, the POST of it with the token as bearer was
  -- built and sent, the answer had the status 200 and decoded, and the two IDs stand in it. The response
  -- code of the answer is not among the conditions.
  pub send_stk_push_ok_iff :
      (c m : String)
      → (send_stk_push W cfg req ≡ ok (c, m)) ↔ (
          (result : StkPushResponse) × PushExchanged result
          × (result.checkout_request_id ≡ c)
          × (result.merchant_request_id ≡ m))
  send_stk_push_ok_iff c m =
      (push_sent, λ (result, x, first, second). push_taken result x ∙ ground arith)
