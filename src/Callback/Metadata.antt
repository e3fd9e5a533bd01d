-- ===== src/Callback/Metadata.antt =====
-- What a callback writes: the values that its metadata lists, in any order, and the record that the
-- in-memory adapter then holds.
use mathlib.Core.List.{Memᴰ}
use malipo.Base.{
  Option-cases, inl, inr, String, ◌≡◌, ◌≢◌, refl, ◌∙◌, sym, ap, subst, true, false, Option, none,
  some, List, [], ◌∷◌, arith,
}
use malipo.Base.{str_eq, eq_refl, All}
use malipo.Base.Int.{ℤ, pos}
use malipo.Base.Map.{lookup}
use malipo.Store.State.{confirmed}
use malipo.Store.Session.{Session, Update, Bytes}
use malipo.Store.Error.{ok}
use malipo.Store.Adapter.{is_pending}
use malipo.Session.Machine.{result_code_to_event}
use malipo.Session.Manager.{handle_callback}
use malipo.Session.Manager.Transition.{next_state-live, transition_on_table}
use malipo.Session.Manager.Resolve.{next_state-callback, handle_callback_found}
use malipo.Memory.Guards.{transition_passed, lookup-apply_transition}
use malipo.Memory.Defs.{Memory, get_by_checkout_id, write_update}
use malipo.Memory.Invariant.{IsValid}
use malipo.Memory.Contract.{memory_adapter, memory_laws, get_by_checkout-lookup}
use malipo.Callback.Status.{serve_callback_delivers}
use malipo.Callback.{
  FloatOps, StkCallback, CallbackItem, CallbackRequest, as_amount, as_receipt, as_phone, item_value,
  metadata_update, build_update, serve_callback,
}

module _ (F : FloatOps) where
  -- No name stands twice.
  abbrev pub DistinctNames : List (CallbackItem F) → Type 0
  DistinctNames [] = Unit
  DistinctNames (item ∷ items) =
      All (λ (other : CallbackItem F). str_eq item.name other.name ≡ false) items
      × DistinctNames items

  other_name :
      (name : String) (item : CallbackItem F) (items : List (CallbackItem F))
      → All (λ (other : CallbackItem F). str_eq name other.name ≡ false) items
      → Memᴰ item items
      → str_eq name item.name ≡ false
  other_name name item [] h m = elim m [ ]
  other_name name item (x ∷ items) h (Memᴰ.head same) = rw same h.0
  other_name name item (x ∷ items) h (Memᴰ.tail m) = other_name name item items h.1 m

  -- Where no name is repeated, the value found under the name of a listed item is that item's
  -- value, wherever it stands.
  item_value-mem :
      (item : CallbackItem F) (items : List (CallbackItem F))
      → DistinctNames items
      → Memᴰ item items
      → item_value F items item.name ≡ item.value
  unfolding item_value
  item_value-mem item [] d m = elim m [ ]
  item_value-mem item (x ∷ items) d (Memᴰ.head same) = rw (same, eq_refl x.name)
  item_value-mem item (x ∷ items) d (Memᴰ.tail m) =
      rw (other_name x.name item items d.0 m) (item_value-mem item items d.1 m)

-- The record that a success callback leaves behind a pending session.
confirmed_record :
    (c : String) (m : Memory) (s : Session) (u : Option Update)
    → IsValid m
    → get_by_checkout_id c m ≡ ok s
    → is_pending s.state ≡ true
    → lookup s.id (handle_callback memory_adapter c (pos 0) u (λ d. d) m).1.sessions
      ≡ some (record (write_update u s m).0 { state = confirmed })
confirmed_record c m s u v found pending =
    let e = result_code_to_event (pos 0) in
    let step = next_state-callback s.state (pos 0) pending in
    rw (
      handle_callback_found memory_adapter memory_laws c (pos 0) u (λ d. d) m s found,
      transition_on_table memory_adapter s.id s.state e u m step,
      transition_passed s.id s.state confirmed u m s (get_by_checkout-lookup c m v found) refl
          (next_state-live s.state e step),
      lookup-apply_transition s.id s.state confirmed u m s s.id,
      eq_refl s.id,
    )

confirmed_record_of :
    (c : String) (code : ℤ) (m : Memory) (s : Session) (u : Option Update)
    → IsValid m
    → code ≡ pos 0
    → get_by_checkout_id c m ≡ ok s
    → is_pending s.state ≡ true
    → lookup s.id (handle_callback memory_adapter c code u (λ d. d) m).1.sessions
      ≡ some (record (write_update u s m).0 { state = confirmed })
confirmed_record_of c code m s u v zero_code found pending =
    subst
      (λ k.
        lookup s.id (handle_callback memory_adapter c k u (λ d. d) m).1.sessions
        ≡ some (record (write_update u s m).0 { state = confirmed }))
      (sym zero_code) (confirmed_record c m s u v found pending)

module _ (F : FloatOps) (cb : StkCallback F) where
  build_update_full :
      (items : List (CallbackItem F))
      → cb.result_code ≡ pos 0
      → cb.callback_metadata ≡ some items
      → build_update F cb ≡ some (metadata_update F items)
  unfolding build_update
  build_update_full items code meta = ground arith

  build_update_bare : cb.callback_metadata ≡ none → build_update F cb ≡ none
  unfolding build_update
  build_update_bare bare = ground arith

-- The record of a session whose payment was reported.
abbrev pub paid : (F : FloatOps) → Option (List (CallbackItem F)) → Session → Session
paid F none s = record s { state = confirmed }
paid F (some items) s = record s {
  state = confirmed;
  mpesa_receipt_number = as_receipt F (item_value F items "MpesaReceiptNumber");
  confirmed_amount = some (as_amount F (item_value F items "Amount"));
  confirmed_phone = some (as_phone F (item_value F items "PhoneNumber"));
}

module _ (F : FloatOps) (decode : Bytes → Option (StkCallback F)) (r : CallbackRequest F)
    (m : Memory) (cb : StkCallback F) (s : Session) (v : IsValid m) (post : r.method ≡ "POST")
    (decoded : decode r.body ≡ some cb) (named : cb.checkout_request_id ≢ "")
    (code : cb.result_code ≡ pos 0) (found : get_by_checkout_id cb.checkout_request_id m ≡ ok s)
    (pending : is_pending s.state ≡ true) where
  abbrev written : Option Update → Option Session
  written u = some (record (write_update u s m).0 { state = confirmed })

  delivered :
      lookup s.id (serve_callback F memory_adapter decode r (λ d. d) m).1.sessions
      ≡ some (record (write_update (build_update F cb) s m).0 { state = confirmed })
  delivered =
      rw (serve_callback_delivers F memory_adapter decode r (λ d. d) m cb post decoded named) (
        confirmed_record_of cb.checkout_request_id cb.result_code m s (build_update F cb) v code
          found pending)

  -- With the in-memory adapter, on a valid store and with nobody between the lookup and the write:
  -- a POST that decodes to a callback with result code 0 and the checkout ID of a pending session
  -- confirms it. If the callback has metadata, the session's record has their receipt, amount and
  -- phone; if it has none, the record keeps what it had in these fields. No other field changes.
  pub serve_callback_confirms :
      lookup s.id (serve_callback F memory_adapter decode r (λ d. d) m).1.sessions
      ≡ some (paid F cb.callback_metadata s)
  serve_callback_confirms = elim (Option-cases cb.callback_metadata) [
    | inl bare ↦ rw bare (delivered ∙ ap written (build_update_bare F cb bare))
    | inr (items, meta) ↦ rw meta (delivered ∙ ap written (build_update_full F cb items code meta))
  ]
