-- ===== src/Sqlite/Defs.antt =====
-- store/sqlite/sqlite.go: `SQLiteAdapter`. A statement is one step on the table. `io` is the failure of the
-- driver, other than that of the primary key, or `none`. The time parser's own message is left out of the
-- errors of `scanSession`. The table is indexed by its primary key. SQL's NULL is `none`.
use Prim.Native.String.{◌++◌}
use malipo.Base.{ℕ, ◌+◌, String, Bool, not, ◌&&◌, Option, none, some, [], ◌∷◌}
use malipo.Base.{false, if◌then◌else◌, str_eq, ◌==◌, set_pointer, or_else}
use malipo.Base.Int.{ℤ}
use malipo.Base.Map.{Map, lookup, insert}
use malipo.Store.State.{State, confirmed, consumed, timeout, is_terminal, state_eq}
use malipo.Store.Session.{Session, Update, Time, Bytes}
use malipo.Store.Error.{Result, ok, err, other}
use malipo.Store.Error.{not_found, session_exists, invalid_transition, already_consumed}
use malipo.Sqlite.Clock.{TimeText}
use malipo.Sqlite.Driver.{
  Fault, refused, lost, uncounted, ReadFault, unanswered, cut_off, unscanned,
}

module _ (T : TimeText) where
  -- A row of the table `sessions`; the column `state` holds the text of one of the eight states.
  pub record Row : Type 0 where
    pub id : String
    pub state : State
    pub phone : Bytes
    pub amount : ℤ
    pub currency : String
    pub shortcode : String
    pub checkout_request_id : Option String
    pub merchant_request_id : Option String
    pub mpesa_receipt_number : Option String
    pub confirmed_amount : Option ℤ
    pub confirmed_phone : Option Bytes
    pub created_at : T.Text
    pub expires_at : T.Text
    pub consumed_at : Option T.Text

  abbrev pub Table : Type 0
  Table = Map Row

  abbrev pub map_text : (Time → T.Text) → Option Time → Option T.Text
  map_text f none = none
  map_text f (some t) = some (f t)

  -- The values that `Create` hands to create_session.sql. The three IDs are never NULL here.
  unfoldable pub new_row : Session → Row
  new_row s = record {
    id = s.id;
    state = s.state;
    phone = s.phone;
    amount = s.amount;
    currency = s.currency;
    shortcode = s.shortcode;
    checkout_request_id = some s.checkout_request_id;
    merchant_request_id = some s.merchant_request_id;
    mpesa_receipt_number = some s.mpesa_receipt_number;
    confirmed_amount = s.confirmed_amount;
    confirmed_phone = s.confirmed_phone;
    created_at = T.format s.created_at;
    expires_at = T.format s.expires_at;
    consumed_at = map_text T.format_local s.consumed_at;
  }

  abbrev pub failed {ℓ} : {X : Type ℓ} → String → String → Result X
  failed what msg = err (other (what ++ msg))

  -- `Create`, with create_session.sql: the primary key refuses a second row with an ID.
  abbrev pub insert_row : Session → Table → Result (Unit {0}) × Table
  insert_row s t = elim (lookup s.id t) [
    | some _ ↦ (err session_exists, t)
    | none ↦ (ok tt, insert s.id (new_row s) t)
  ]

  -- The rows affected are not asked for. A lost statement that the primary key refused has written nothing.
  unfoldable pub create : Option Fault → Session → Table → Result (Unit {0}) × Table
  create none s t = insert_row s t
  create (some (refused msg)) s t = (failed "sqlite: create failed: " msg, t)
  create (some (lost msg)) s t = (failed "sqlite: create failed: " msg, (insert_row s t).1)
  create (some (uncounted msg)) s t = insert_row s t

  abbrev pub parsed : Option T.Text → Result (Option Time)
  parsed none = ok none
  parsed (some text) = elim (T.parse text) [
    | none ↦ err (other "sqlite: parse consumed_at failed")
    | some t ↦ ok (some t)
  ]

  abbrev pub session_of : Row → Time → Time → Option Time → Session
  session_of row created expires spent = record {
    id = row.id;
    state = row.state;
    phone = row.phone;
    amount = row.amount;
    currency = row.currency;
    shortcode = row.shortcode;
    checkout_request_id = or_else row.checkout_request_id "";
    merchant_request_id = or_else row.merchant_request_id "";
    mpesa_receipt_number = or_else row.mpesa_receipt_number "";
    confirmed_amount = row.confirmed_amount;
    confirmed_phone = row.confirmed_phone;
    created_at = created;
    expires_at = expires;
    consumed_at = spent;
  }

  -- `scanSession`
  unfoldable pub scan_session : Row → Result Session
  scan_session row = elim (T.parse row.created_at) [
    | none ↦ err (other "sqlite: parse created_at failed")
    | some created ↦ elim (T.parse row.expires_at) [
      | none ↦ err (other "sqlite: parse expires_at failed")
      | some expires ↦ elim (parsed row.consumed_at) [
        | err e ↦ err e
        | ok spent ↦ ok (session_of row created expires spent)
      ]
    ]
  ]

  abbrev pub scan_found : Option Row → Result Session
  scan_found none = err not_found
  scan_found (some row) = scan_session row

  -- The row after `Next`, if the driver failed. `Err` is not asked after `Next`.
  abbrev pub scan_faulted : String → ReadFault → Option Row → Result Session
  scan_faulted what (unanswered msg) row = failed what msg
  scan_faulted what cut_off row = err not_found
  scan_faulted what (unscanned msg) none = err not_found
  scan_faulted what (unscanned msg) (some row) = failed "sqlite: scan failed: " msg

  -- `Get`, with get_session.sql.
  unfoldable pub get : Option ReadFault → String → Table → Result Session
  get none id t = scan_found (lookup id t)
  get (some io) id t = scan_faulted "sqlite: get failed: " io (lookup id t)

  -- `checkout_request_id = ?`, which NULL does not satisfy.
  abbrev pub has_checkout : String → Row → Bool
  has_checkout c row = elim row.checkout_request_id [ none ↦ false | some d ↦ str_eq d c ]

  -- get_by_checkout_id.sql: the first of the rows.
  unfoldable pub find_checkout : String → Table → Option Row
  find_checkout c [] = none
  find_checkout c ((k, row) ∷ t) =
      let rest = find_checkout c t in if has_checkout c row then some row else rest

  -- `GetByCheckoutID`
  unfoldable pub get_by_checkout_id : Option ReadFault → String → Table → Result Session
  get_by_checkout_id none c t = scan_found (find_checkout c t)
  get_by_checkout_id (some io) c t =
      scan_faulted "sqlite: get by checkout id failed: " io (find_checkout c t)

  -- The SET clause of transition.sql: COALESCE keeps a column where the parameter is NULL.
  abbrev pub coalesce : State → Option Update → Row → Row
  coalesce to none row = record row { state = to }
  coalesce to (some u) row = record row {
    state = to;
    checkout_request_id = set_pointer u.checkout_request_id row.checkout_request_id;
    merchant_request_id = set_pointer u.merchant_request_id row.merchant_request_id;
    mpesa_receipt_number = set_pointer u.mpesa_receipt_number row.mpesa_receipt_number;
    confirmed_amount = set_pointer u.confirmed_amount row.confirmed_amount;
    confirmed_phone = set_pointer u.confirmed_phone row.confirmed_phone;
    consumed_at = set_pointer (map_text T.format u.consumed_at) row.consumed_at;
  }

  -- An UPDATE of the row with a primary key, WHERE its state is `from`: the table, and the rows
  -- affected.
  unfoldable pub update_row : String → State → (Row → Row) → Table → Table × ℕ
  update_row id from f t = elim (lookup id t) [
    | none ↦ (t, 0)
    | some row ↦ if state_eq row.state from then (insert id (f row) t, 1) else (t, 0)
  ]

  abbrev pub affected : Table × ℕ → Result (Unit {0}) × Table
  affected (t, n) = (if n == 0 then err invalid_transition else ok tt, t)

  -- The table and the error of a statement that would have left the table and a count.
  abbrev pub faulted {ℓ} : {X : Type ℓ} → String → Fault → Table → Table × ℕ → Result X × Table
  faulted what (refused msg) t out = (failed what msg, t)
  faulted what (lost msg) t out = (failed what msg, out.0)
  faulted what (uncounted msg) t out = (failed "sqlite: rows affected failed: " msg, out.0)

  -- `Transition`, with transition.sql.
  unfoldable pub transition :
      Option Fault → String → State → State → Option Update → Table → Result (Unit {0}) × Table
  transition none id from to u t = affected (update_row id from (coalesce to u) t)
  transition (some io) id from to u t =
      faulted "sqlite: transition failed: " io t (update_row id from (coalesce to u) t)

  -- What `ConsumeIfConfirmed` tells of a row that the statement did not affect.
  abbrev pub unconsumed : Result Session → Result Session
  unconsumed (err e) = err e
  unconsumed (ok s) =
      if state_eq s.state consumed then err already_consumed else err invalid_transition

  -- The end of `ConsumeIfConfirmed`. `between` runs before its `Get`.
  abbrev pub consumed_by :
      Option ReadFault → String → (Table → Table) → Table × ℕ → Result Session × Table
  consumed_by io id between (t, n) =
      let after = get io id (between t) in (if n == 0 then unconsumed after else after, between t)

  -- The SET clause of consume_if_confirmed.sql.
  abbrev pub spent_row : Time → Row → Row
  spent_row now row = record row { state = consumed; consumed_at = some (T.format now) }

  -- `ConsumeIfConfirmed`, with consume_if_confirmed.sql; `now` is `time.Now()`. The first `io` is the
  -- statement's, the second that of the `Get` after it, and `between` is what others did to the table
  -- between the two.
  unfoldable pub consume_between :
      Time
      → Option Fault
      → Option ReadFault
      → (Table → Table)
      → String
      → Table
      → Result Session × Table
  consume_between now none io between id t =
      consumed_by io id between (update_row id confirmed (spent_row now) t)
  consume_between now (some io') io between id t =
      faulted "sqlite: consume failed: " io' t (update_row id confirmed (spent_row now) t)

  -- With nobody in between.
  abbrev pub consume_if_confirmed :
      Time → Option Fault → Option ReadFault → String → Table → Result Session × Table
  consume_if_confirmed now io io' id t = consume_between now io io' (λ t'. t') id t

  abbrev pub is_stale : T.Text → Row → Bool
  is_stale before row = not (is_terminal row.state) && T.ltb row.expires_at before

  -- expire_stale.sql: the table, and the rows affected.
  unfoldable pub expire_rows : T.Text → Table → Table × ℕ
  expire_rows before [] = ([], 0)
  expire_rows before ((k, row) ∷ t) =
      let (t', n) = expire_rows before t in
      if is_stale before row
      then ((k, record row { state = timeout }) ∷ t', n + 1)
      else ((k, row) ∷ t', n)

  -- `ExpireStale`
  unfoldable pub expire_stale : Option Fault → Time → Table → Result ℕ × Table
  expire_stale none before t = let (t', n) = expire_rows (T.format before) t in (ok n, t')
  expire_stale (some io) before t =
      faulted "sqlite: expire stale failed: " io t (expire_rows (T.format before) t)
