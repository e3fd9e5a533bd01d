-- ===== src/Sqlite/Failures.antt =====
-- store/sqlite/sqlite.go: a driver that fails between the two statements of `ConsumeIfConfirmed`.
use Prim.Native.String.{◌++◌}
use malipo.Base.{String, ◌≡◌, refl, inl, inr, none, some, arith, eq_refl, Option-cases}
use malipo.Base.Map.{lookup, insert, lookup-insert}
use malipo.Store.State.{confirmed}
use malipo.Store.Session.{Time}
use malipo.Store.Error.{Error, err, other, not_found, already_consumed}
use malipo.Sqlite.Clock.{TimeText}
use malipo.Sqlite.Driver.{ReadFault, unanswered, cut_off, unscanned}
use malipo.Sqlite.Defs.{spent_row, Row, Table, consume_if_confirmed, get}
use malipo.Sqlite.Rows.{consume_row_spent}
use malipo.Sqlite.Invariant.{HasTimes, scan_session-HasTimes}
use malipo.Sqlite.Keeps.{spent_row-HasTimes}
use malipo.Sqlite.Between.{between_met}

module _ (T : TimeText) (id : String) (t : Table T) (row : Row T) where
  -- Whichever call of the driver fails, the reading ends in an error.
  get_unread : (io : ReadFault) (t' : Table T) → (e : Error) × (get T (some io) id t' ≡ err e)
  unfolding get
  get_unread (unanswered msg) t' = (other ("sqlite: get failed: " ++ msg), refl)
  get_unread cut_off t' = (not_found, refl)
  get_unread (unscanned msg) t' = elim (Option-cases (lookup id t')) [
    | inl absent ↦ (not_found, ground arith)
    | inr (r, found) ↦ (other ("sqlite: scan failed: " ++ msg), ground arith)
  ]

  -- If the driver fails when `ConsumeIfConfirmed` reads a confirmed session back, be it in the query, in
  -- `Next` or in `Scan`, and the row can be read by a driver that does not fail, the caller has an error,
  -- but the session is consumed: the next call, with a driver that does not fail, finds it consumed already.
  pub consume_row_lost :
      (now later : Time) (io : ReadFault)
      → lookup id t ≡ some row
      → row.state ≡ confirmed
      → HasTimes T row
      → let out = consume_if_confirmed T now none (some io) id t in
        ((e : Error) × (out.0 ≡ err e))
        × (consume_if_confirmed T later none none id out.1 ≡ (err already_consumed, out.1))
  consume_row_lost now later io p at times =
      let (s, read, _, _) =
        scan_session-HasTimes T (spent_row T now row) (spent_row-HasTimes T now row times) in
      let (e, unread) = get_unread io (insert id (spent_row T now row) t) in
      rw (between_met T now id (λ t'. t') t (some io) row p at, unread)
        (
          (e, refl),
          consume_row_spent T later id (insert id (spent_row T now row) t) (spent_row T now row) s
              (ground (arith, lookup-insert id id (spent_row T now row) t, eq_refl id)) refl read,
        )
