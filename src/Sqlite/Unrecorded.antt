-- ===== src/Sqlite/Unrecorded.antt =====
-- session/manager.go over store/sqlite/sqlite.go: the driver refuses the write in which `InitiatePayment`
-- records what became of the push.
use Prim.Native.String.{◌++◌}
use malipo.Base.{◌+◌, String, ◌≡◌, ◌≢◌, refl, ◌∙◌, ◌⊎◌, inl, inr, Option, none, some, arith}
use malipo.Base.{str_eq, eq_iff, eq_refl, Bool-cases}
use malipo.Base.Int.{ℤ}
use malipo.Base.Map.{lookup, insert, lookup-insert}
use malipo.Store.State.{State, created}
use malipo.Store.Session.{StkPushRequest, Update, Time, Bytes}
use malipo.Store.Error.{Error, Result-cases, err, other, not_found}
use malipo.Session.Machine.{Event, next_state, stk_accepted, stk_rejected}
use malipo.Session.Phone.{normalize_phone}
use malipo.Session.Token.{TokenProvider}
use malipo.Session.Manager.{
  PaymentRequest, Config, Initiated, stopped_with, new_session, correlation, transition,
  push_and_record, create_and_push, initiate_payment, handle_callback,
}
use malipo.Sqlite.Clock.{TimeText}
use malipo.Sqlite.Driver.{Fault, refused, ReadFault, unanswered, cut_off, unscanned}
use malipo.Sqlite.Defs.{Row, Table, create, new_row, find_checkout, get_by_checkout_id}
use malipo.Sqlite.Defs as Defs
use malipo.Sqlite.Index.{find_checkout-insert}
use malipo.Sqlite.Reads.{row_state}
use malipo.Sqlite.Flaky.{Driver, Connection, flaky_adapter, create_either}

module _ (T : TimeText) (D : Driver) (cfg : Config) (req : PaymentRequest) (id : String)
    (now : Time) (c : Connection T) where
  -- The table as it was, or with the new session alone.
  abbrev IsLeft : Table T → Type 0
  IsLeft t =
      (t ≡ c.table)
      ⊎ ((phone : Bytes) × (t ≡ insert id (new_row T (new_session cfg req phone id now)) c.table))

  -- The initiation fails, without a timer, and leaves such a table.
  record IsStranded (out : Initiated (flaky_adapter T D)) : Type 0 where
    failed : (e : Error) × (out.result ≡ err e)
    timer : out.timer ≡ none
    left : IsLeft out.db.table

  stopped : (e : Error) (db : Connection T) → IsLeft db.table → IsStranded (stopped_with _ e db)
  stopped e db h = record { failed = (e, refl); timer = refl; left = h }

  new_session_id : (phone : Bytes) → (new_session cfg req phone id now).id ≡ id
  unfolding new_session
  new_session_id phone = refl

  create-IsLeft :
      (phone : Bytes) (io : Option Fault)
      → lookup id c.table ≡ none
      → IsLeft (create T io (new_session cfg req phone id now) c.table).1
  unfolding create new_session
  create-IsLeft phone io fresh =
      elim (create_either T io (new_session cfg req phone id now) c.table) [
        | inl kept ↦ inl kept
        | inr done ↦ inr (phone, done ∙ ground (arith, new_session_id phone))
      ]

  module _ (msg : String) (db : Connection T) (left : IsLeft db.table)
      (fails : D.writes db.count ≡ some (refused msg)) where
    refused_write :
        (to : State) (u : Option Update) (e : Event)
        → next_state created e ≡ some to
        → transition (flaky_adapter T D) id created e u db ≡ (
          err (other ("sqlite: transition failed: " ++ msg)),
          record { table = db.table; count = db.count + 1 },
        )
    unfolding transition Defs.transition
    refused_write to u e p = rw (transition, p, fails) refl

    push_stranded :
        (auth : TokenProvider) (request : StkPushRequest)
        → IsStranded (push_and_record (flaky_adapter T D) cfg auth request id (λ d. d) db)
    unfolding push_and_record next_state
    push_stranded auth request = elim (Result-cases (auth.send_stk_push request)) [
      | inl (e, p) ↦
          rw (push_and_record, p, refused_write _ none stk_rejected refl) (stopped e _ left)
      | inr ((k, m), p) ↦
          rw (push_and_record, p, refused_write _ (some (correlation k m)) stk_accepted refl)
            (stopped _ _ left)
    ]

  module _ (auth : TokenProvider) (msg : String) (fresh : lookup id c.table ≡ none)
      (fails : D.writes (c.count + 1) ≡ some (refused msg)) where
    create_stranded :
        (phone : Bytes) (token password timestamp : String)
        → IsStranded (
            create_and_push
              (flaky_adapter T D)
              cfg
              auth
              req
              phone
              token
              password
              timestamp
              id
              now
              (λ d. d)
              c)
    unfolding create_and_push
    create_stranded phone token password timestamp =
        let s = new_session cfg req phone id now in
        let left = create-IsLeft phone (D.writes c.count) fresh in
        elim (Result-cases (create T (D.writes c.count) s c.table).0) [
          | inl (e, h) ↦ rw (create_and_push, h) (stopped e _ left)
          | inr (_, h) ↦ rw (create_and_push, h) (push_stranded msg _ left fails auth _)
        ]

    initiate_stranded :
        IsStranded (initiate_payment (flaky_adapter T D) cfg auth req id now (λ d. d) c)
    unfolding initiate_payment
    initiate_stranded = elim (Result-cases (normalize_phone req.phone)) [
      | inl (e, h) ↦ rw (initiate_payment, h) (stopped e c (inl refl))
      | inr (phone, h) ↦ elim (Result-cases auth.get_access_token) [
        | inl (e, k) ↦ rw (initiate_payment, h, k) (stopped e c (inl refl))
        | inr (token, k) ↦
            elim (Bool-cases (str_eq (auth.generate_password cfg.shortcode cfg.passkey).0 "")) [
              | inl empty ↦ rw (initiate_payment, h, k, empty) (stopped _ c (inl refl))
              | inr set ↦ rw (initiate_payment, h, k, set) (create_stranded phone token _ _)
            ]
      ]
    ]

  left_state :
      (t : Table T)
      → lookup id c.table ≡ none
      → IsLeft t
      → (row_state T t id ≡ none) ⊎ (row_state T t id ≡ some created)
  unfolding new_row new_session
  left_state t fresh (inl kept) = inl (rw (kept, fresh))
  left_state t fresh (inr (phone, e)) =
      let row = new_row T (new_session cfg req phone id now) in
      inr (rw e (rw (lookup-insert id id row c.table, eq_refl id)))

  left_unindexed :
      (t : Table T) (k : String)
      → IsLeft t
      → k ≢ ""
      → find_checkout T k c.table ≡ none
      → find_checkout T k t ≡ none
  unfolding new_row new_session
  left_unindexed t k (inl kept) set none_has = rw kept none_has
  left_unindexed t k (inr (phone, e)) set none_has =
      let row = new_row T (new_session cfg req phone id now) in
      rw e (find_checkout-insert T k id row c.table none_has ∙ ground (arith, eq_iff "" k))

module _ (T : TimeText) (D : Driver) where
  search_fails :
      (io : Option ReadFault) (k : String) (t : Table T)
      → find_checkout T k t ≡ none
      → (e : Error) × (get_by_checkout_id T io k t ≡ err e)
  unfolding get_by_checkout_id
  search_fails none k t h = (not_found, rw (get_by_checkout_id, h))
  search_fails (some (unanswered msg)) k t h =
      (other ("sqlite: get by checkout id failed: " ++ msg), refl)
  search_fails (some cut_off) k t h = (not_found, refl)
  search_fails (some (unscanned msg)) k t h = (not_found, rw (get_by_checkout_id, h))

  callback_fails :
      (k : String) (code : ℤ) (u : Option Update) (others : Connection T → Connection T)
      (c : Connection T)
      → find_checkout T k c.table ≡ none
      → (e : Error) × (handle_callback (flaky_adapter T D) k code u others c ≡ (err e, c))
  unfolding handle_callback
  callback_fails k code u others c h =
      let (e, fails) = search_fails (D.reads c.count k) k c.table h in
      (e, rw (handle_callback, fails))

-- Over SQLite, with nobody else at the store, if no row has the ID of the new session and the driver refuses
-- the second write that comes: `InitiatePayment`, whatever the service answers, also where it accepts the
-- push and so asks the payer for the PIN, returns an error and starts no timer; the session is absent or
-- CREATED; and a callback of any checkout ID, not empty, that no row had before, such as that of the push,
-- ends in an error and changes nothing, whatever its result code and whether or not its own reading fails.
pub initiate_payment_unrecorded :
    (T : TimeText) (D : Driver) (cfg : Config) (auth : TokenProvider) (req : PaymentRequest)
    (id : String) (now : Time) (c : Connection T) (msg : String)
    → lookup id c.table ≡ none
    → D.writes (c.count + 1) ≡ some (refused msg)
    → let out = initiate_payment (flaky_adapter T D) cfg auth req id now (λ d. d) c in
      ((e : Error) × (out.result ≡ err e))
      × (out.timer ≡ none)
      × ((row_state T out.db.table id ≡ none) ⊎ (row_state T out.db.table id ≡ some created))
      × ((k : String)
          → k ≢ ""
          → find_checkout T k c.table ≡ none
          → (code : ℤ) (u : Option Update) (others : Connection T → Connection T)
          → (e : Error) × (handle_callback (flaky_adapter T D) k code u others out.db
              ≡ (err e, out.db)))
initiate_payment_unrecorded T D cfg auth req id now c msg fresh fails =
    let out = initiate_payment (flaky_adapter T D) cfg auth req id now (λ d. d) c in
    let end = initiate_stranded T D cfg req id now c auth msg fresh fails in
    (
      end.failed,
      end.timer,
      left_state T D cfg req id now c out.db.table fresh end.left,
      λ k set none_has code u others.
          callback_fails T D k code u others out.db
            (left_unindexed T D cfg req id now c out.db.table k end.left set none_has),
    )
