-- ===== src/Memory/Written.antt =====
-- What `Transition` of `MemoryAdapter` writes to a session and to the index, field by field.
use malipo.Base.{String, ◌≡◌, refl, Option, none, some, or_else, set_pointer, str_eq, if◌then◌else◌}
use malipo.Base.Map.{Map, lookup, lookup-insert}
use malipo.Store.State.{State}
use malipo.Store.Session.{Session, Update}
use malipo.Memory.Defs.{Memory, index_checkout, write_update}

-- What an update gives for a field, if there is an update.
abbrev pub given {ℓ} : {X : Type ℓ} → (Update → Option X) → Option Update → Option X
given f none = none
given f (some v) = f v

-- A field takes what is given for it, and else stays.
abbrev pub Takes {ℓ} : {X : Type ℓ} → Option X → X → X → Type ℓ
Takes none old new = new ≡ old
Takes (some x) old new = new ≡ x

-- The same of a field that is a pointer.
abbrev pub TakesPointer {ℓ} : {X : Type ℓ} → Option X → Option X → Option X → Type ℓ
TakesPointer none old new = new ≡ old
TakesPointer (some x) old new = new ≡ some x

-- What `Transition` makes of a session, field by field.
pub record IsWritten (u : Option Update) (to : State) (s s' : Session) : Type 0 where
  pub state : s'.state ≡ to
  pub checkout_request_id :
      Takes (given (λ v. v.checkout_request_id) u) s.checkout_request_id s'.checkout_request_id
  pub merchant_request_id :
      Takes (given (λ v. v.merchant_request_id) u) s.merchant_request_id s'.merchant_request_id
  pub mpesa_receipt_number :
      Takes (given (λ v. v.mpesa_receipt_number) u) s.mpesa_receipt_number s'.mpesa_receipt_number
  pub confirmed_amount :
      TakesPointer (given (λ v. v.confirmed_amount) u) s.confirmed_amount s'.confirmed_amount
  pub confirmed_phone :
      TakesPointer (given (λ v. v.confirmed_phone) u) s.confirmed_phone s'.confirmed_phone
  pub consumed_at : TakesPointer (given (λ v. v.consumed_at) u) s.consumed_at s'.consumed_at
  pub id : s'.id ≡ s.id
  pub phone : s'.phone ≡ s.phone
  pub amount : s'.amount ≡ s.amount
  pub currency : s'.currency ≡ s.currency
  pub shortcode : s'.shortcode ≡ s.shortcode
  pub created_at : s'.created_at ≡ s.created_at
  pub expires_at : s'.expires_at ≡ s.expires_at

-- What it makes of the index: a given checkout ID leads to the session.
abbrev pub IsIndexed : Option String → String → Map String → Map String → Type 0
IsIndexed none id old new = new ≡ old
IsIndexed (some c) id old new =
    (k : String) → lookup k new ≡ (if str_eq c k then some id else lookup k old)

or_else-Takes {ℓ} : {X : Type ℓ} (o : Option X) (old : X) → Takes o old (or_else o old)
or_else-Takes none old = refl
or_else-Takes (some x) old = refl

set_pointer-TakesPointer {ℓ} :
    {X : Type ℓ} (o old : Option X) → TakesPointer o old (set_pointer o old)
set_pointer-TakesPointer none old = refl
set_pointer-TakesPointer (some x) old = refl

pub write_update-IsWritten :
    (u : Option Update) (to : State) (s : Session) (m : Memory)
    → IsWritten u to s (record (write_update u s m).0 { state = to })
write_update-IsWritten none to s m = record {
  state = refl;
  checkout_request_id = refl;
  merchant_request_id = refl;
  mpesa_receipt_number = refl;
  confirmed_amount = refl;
  confirmed_phone = refl;
  consumed_at = refl;
  id = refl;
  phone = refl;
  amount = refl;
  currency = refl;
  shortcode = refl;
  created_at = refl;
  expires_at = refl;
}
write_update-IsWritten (some v) to s m = record {
  state = refl;
  checkout_request_id = or_else-Takes v.checkout_request_id s.checkout_request_id;
  merchant_request_id = or_else-Takes v.merchant_request_id s.merchant_request_id;
  mpesa_receipt_number = or_else-Takes v.mpesa_receipt_number s.mpesa_receipt_number;
  confirmed_amount = set_pointer-TakesPointer v.confirmed_amount s.confirmed_amount;
  confirmed_phone = set_pointer-TakesPointer v.confirmed_phone s.confirmed_phone;
  consumed_at = set_pointer-TakesPointer v.consumed_at s.consumed_at;
  id = refl;
  phone = refl;
  amount = refl;
  currency = refl;
  shortcode = refl;
  created_at = refl;
  expires_at = refl;
}

index_checkout-IsIndexed :
    (o : Option String) (id : String) (index : Map String)
    → IsIndexed o id index (index_checkout o id index)
index_checkout-IsIndexed none id index = refl
index_checkout-IsIndexed (some c) id index = λ k. lookup-insert c k id index

pub write_update-IsIndexed :
    (u : Option Update) (s : Session) (m : Memory)
    → IsIndexed (given (λ v. v.checkout_request_id) u) s.id m.by_checkout (write_update u s m).1
write_update-IsIndexed none s m = refl
write_update-IsIndexed (some v) s m =
    index_checkout-IsIndexed v.checkout_request_id s.id m.by_checkout
