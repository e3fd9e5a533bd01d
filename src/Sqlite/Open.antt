-- ===== src/Sqlite/Open.antt =====
-- store/sqlite/sqlite.go: opening and closing the database. The answers of `database/sql` are arguments:
-- `none`, or the message of the failure.
use Prim.Native.String.{◌++◌}
use malipo.Base.{String, Option, none, some}
use malipo.Store.Error.{Result, ok, err, other, ◌>>◌}
use malipo.Sqlite.Clock.{TimeText}
use malipo.Sqlite.Defs.{Table}

abbrev pub check : String → Option String → Result (Unit {0})
check what none = ok tt
check what (some msg) = err (other (what ++ msg))

-- `NewSQLiteAdapter`, on the file that holds the table `t`; schema.sql creates an empty one, and leaves
-- one that is there.
unfoldable pub new_sqlite_adapter :
    (T : TimeText) → Option String → Option String → Option String → Table T → Result (Table T)
new_sqlite_adapter T opened pinged initialised t = do
  check "sqlite: open failed: " opened
  check "sqlite: ping failed: " pinged
  check "sqlite: schema init failed: " initialised
  ok t

-- `Close`
abbrev pub close : Option String → Result (Unit {0})
close = check ""
