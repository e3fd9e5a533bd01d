-- ===== src/Memory/Heap.antt =====
-- store/session.go, with its pointers: the sessions and the variables that their pointer fields point at, by
-- their addresses, and Go's allocation, copy and write.
use mathlib.Core.Option
use malipo.Base.{ℕ, ◌+◌, ◌<◌, String, Option, none, some}
use malipo.Base.{if◌then◌else◌, ◌==◌}
use malipo.Base.Int.{ℤ}
use malipo.Store.State.{State}
use malipo.Store.Session.{Session, Update, Time, Bytes}

-- `Session`: a pointer field is nil or an address.
pub record PointerSession : Type 0 where
  pub id : String
  pub state : State
  pub phone : Bytes
  pub amount : ℤ
  pub currency : String
  pub shortcode : String
  pub checkout_request_id : String
  pub merchant_request_id : String
  pub mpesa_receipt_number : String
  pub confirmed_amount : Option ℕ
  pub confirmed_phone : Option ℕ
  pub created_at : Time
  pub expires_at : Time
  pub consumed_at : Option ℕ

-- `Update`: the strings are read during the call, the other three pointers are kept.
pub record PointerUpdate : Type 0 where
  pub checkout_request_id : Option String
  pub merchant_request_id : Option String
  pub mpesa_receipt_number : Option String
  pub confirmed_amount : Option ℕ
  pub confirmed_phone : Option ℕ
  pub consumed_at : Option ℕ

-- The variables of each type by their addresses. Those from `next_record` and `next_time` on are
-- not allocated yet.
pub record Heap : Type 0 where
  pub records : ℕ → PointerSession
  pub next_record : ℕ
  pub amounts : ℕ → ℤ
  pub phones : ℕ → Bytes
  pub times : ℕ → Time
  pub next_time : ℕ

-- `*p = v`
abbrev pub write : {V : Type 0} → ℕ → V → (ℕ → V) → ℕ → V
write p v cells q = if q == p then v else cells q

abbrev pub overwrite : ℕ → PointerSession → Heap → Heap
overwrite p s h = record h { records = write p s h.records }

-- `copy := *s`, of which `&copy` is `h.next_record`.
abbrev pub alloc : PointerSession → Heap → Heap
alloc s h = record h { records = write h.next_record s h.records; next_record = h.next_record + 1 }

-- The session that a record stands for.
abbrev pub deref : Heap → PointerSession → Session
deref h s = record {
  id = s.id;
  state = s.state;
  phone = s.phone;
  amount = s.amount;
  currency = s.currency;
  shortcode = s.shortcode;
  checkout_request_id = s.checkout_request_id;
  merchant_request_id = s.merchant_request_id;
  mpesa_receipt_number = s.mpesa_receipt_number;
  confirmed_amount = Option.map h.amounts s.confirmed_amount;
  confirmed_phone = Option.map h.phones s.confirmed_phone;
  created_at = s.created_at;
  expires_at = s.expires_at;
  consumed_at = Option.map h.times s.consumed_at;
}

abbrev pub deref_update : Heap → PointerUpdate → Update
deref_update h u = record {
  checkout_request_id = u.checkout_request_id;
  merchant_request_id = u.merchant_request_id;
  mpesa_receipt_number = u.mpesa_receipt_number;
  confirmed_amount = Option.map h.amounts u.confirmed_amount;
  confirmed_phone = Option.map h.phones u.confirmed_phone;
  consumed_at = Option.map h.times u.consumed_at;
}

abbrev pub read : Heap → ℕ → Session
read h p = deref h (h.records p)

-- A time pointer that is set has been allocated.
abbrev pub Allocated : ℕ → Option ℕ → Type 0
Allocated next none = Unit
Allocated next (some t) = t < next
