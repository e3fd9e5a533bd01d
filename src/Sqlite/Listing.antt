-- ===== src/Sqlite/Listing.antt =====
-- store/sqlite/sqlite.go: `ListPending`, with list_pending.sql.
use malipo.Base.{ℕ, zero, suc, String, Bool, ◌&&◌, Option, none, some, List, [], ◌∷◌}
use malipo.Base.{true, false, if◌then◌else◌}
use malipo.Store.Session.{Session, Time}
use malipo.Store.Error.{Result, ok, err}
use malipo.Store.Adapter.{is_pending}
use malipo.Sqlite.Clock.{TimeText}
use malipo.Sqlite.Driver.{ListFault, unlisted, broken_off, unscanned_at}
use malipo.Sqlite.Defs.{Row, Table, scan_session, failed}

module _ (T : TimeText) where
  abbrev pub is_due : T.Text → Row T → Bool
  is_due before row = is_pending row.state && T.ltb row.created_at before

  -- The loop of `ListPending` over the rows of list_pending.sql: the first row that does not scan ends it.
  unfoldable pub pending_rows : T.Text → Table T → Result (List Session)
  pending_rows before [] = ok []
  pending_rows before ((k, row) ∷ t) =
      let rest = pending_rows before t in
      if is_due before row
      then elim (scan_session T row) [
        | err e ↦ err e
        | ok s ↦ elim rest [ err e ↦ err e | ok ss ↦ ok (s ∷ ss) ]
      ]
      else rest

  -- The table up to a number of the rows of list_pending.sql, and whether there are more of them.
  unfoldable pub first_due : T.Text → ℕ → Table T → Table T × Bool
  first_due before n [] = ([], false)
  first_due before n ((k, row) ∷ t) = elim (is_due before row) [
    | false ↦ first_due before n t
    | true ↦ elim n [
      | zero ↦ ([], true)
      | suc m ↦ let (t', more) = first_due before m t in ((k, row) ∷ t', more)
    ]
  ]

  -- An error in place of the rows that did scan.
  abbrev pub cut_short : Result (List Session) → String → String → Result (List Session)
  cut_short (err e) what msg = err e
  cut_short (ok ss) what msg = failed T what msg

  -- `ListPending`
  unfoldable pub list_pending : Option ListFault → Time → Table T → Result (List Session)
  list_pending none before t = pending_rows (T.format before) t
  list_pending (some (unlisted msg)) before t = failed T "sqlite: list pending failed: " msg
  list_pending (some (broken_off n msg)) before t =
      cut_short (pending_rows (T.format before) (first_due (T.format before) n t).0)
        "sqlite: list pending rows error: " msg
  list_pending (some (unscanned_at n msg)) before t =
      let (seen, more) = first_due (T.format before) n t in
      let rows = pending_rows (T.format before) seen in
      if more then cut_short rows "sqlite: scan failed: " msg else rows
