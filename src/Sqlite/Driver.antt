-- ===== src/Sqlite/Driver.antt =====
-- How `database/sql` and the driver below it can fail in the calls that store/sqlite/sqlite.go makes. Each
-- failure has the message of its error.
use malipo.Base.{ℕ, String}

-- Of a statement that writes: `Exec` fails and nothing was written; `Exec` fails although the statement
-- was carried out; `Exec` succeeds and `RowsAffected` fails.
pub data Fault : Type 0 where
  refused lost uncounted : String → Fault

-- Of a query for one row: `Query` fails; `Next` stops before a row that is there; `Scan` fails.
pub data ReadFault : Type 0 where
  unanswered : String → ReadFault
  cut_off : ReadFault
  unscanned : String → ReadFault

-- Of a query for many rows: `Query` fails; `Next` stops after some rows, and `Err` has the error; `Scan`
-- fails for the row that comes after some rows.
pub data ListFault : Type 0 where
  unlisted : String → ListFault
  broken_off unscanned_at : ℕ → String → ListFault
