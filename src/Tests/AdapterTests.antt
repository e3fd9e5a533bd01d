-- ===== src/Tests/AdapterTests.antt =====
-- The two adapters, store/memory/memory.go and store/sqlite/sqlite.go, behind their interface.
use mathlib.Core.Option
use malipo.Base.{ℕ, String, ◌≡◌, ◌≢◌, ◌⊎◌, refl, Option, none, some, List, [], ◌∷◌}
use malipo.Base.{◌==◌, str_eq, if◌then◌else◌}
use malipo.Base.Int.{ℤ, pos}
use malipo.Base.Map.{lookup}
use malipo.Store.State.{created, stk_pushed}
use malipo.Store.Session.{Update}
use malipo.Store.Error.{Error, err}
use malipo.Store.Adapter.{IsAdapter}
use malipo.Store.Safety.{IsSafeAdapter}
use malipo.Sqlite.Driver.{refused, lost, unanswered}
use malipo.Sqlite.Flaky.{Driver, Connection, flaky_adapter, flaky_adapter-IsSafeAdapter}
use malipo.Sqlite.Reads.{row_state}
use malipo.Sqlite.Defs.{Table, find_checkout}
use malipo.Sqlite.Invariant.{empty-IsValid}
use malipo.Sqlite.Contract.{sqlite_adapter, sqlite_laws, sqlite_adapter-IsAdapter}
use malipo.Session.Manager.{initiate_payment, handle_callback}
use malipo.Sqlite.Unrecorded.{initiate_payment_unrecorded}
use malipo.Session.Machine.{stk_accepted, callback_success}
use malipo.Session.Trace.{Call, create, fire, consume, run}
use malipo.Session.Trace.Abstract.{abstract_run, answers, no_sweeps, run-abstract}
use malipo.Tests.Fixtures.{session_in, config, accepting, payment}
use malipo.Tests.SqliteTests.{texts}

abbrev empty_table : Table texts
empty_table = []

sqlite_adapter-IsAdapter_example :
    (L : IsAdapter (sqlite_adapter texts)) × (L.IsValid [])
    × ((t : Table texts) (id : String)
        → L.state_of t id ≡ Option.map (λ row. row.state) (lookup id t))
sqlite_adapter-IsAdapter_example = sqlite_adapter-IsAdapter texts

-- A session from its creation to its consumption, and a second consumption.
abbrev history : List Call
history =
    create (session_in created)
    ∷ fire "s1" created stk_accepted none
    ∷ fire "s1" stk_pushed callback_success none
    ∷ consume (pos 60) "s1"
    ∷ consume (pos 70) "s1"
    ∷ []

run-abstract_example :
    (answers (sqlite_adapter texts) history empty_table
      ≡ (abstract_run history ((sqlite_laws texts).state_of empty_table)).0)
    × ((sqlite_laws texts).state_of (run (sqlite_adapter texts) history empty_table)
        ≡ (abstract_run history ((sqlite_laws texts).state_of empty_table)).1)
unfolding sqlite_laws no_sweeps
run-abstract_example =
    run-abstract (sqlite_adapter texts) (sqlite_laws texts) history empty_table refl
      (empty-IsValid texts)

-- The second write is carried out and reported as lost, and whoever looks for "s3" has no answer.
abbrev pub lossy : Driver
lossy = record {
  writes = λ n. if n == 1 then some (lost "connection lost") else none;
  reads = λ n id. none;
  read_backs = λ n id. if str_eq id "s3" then some (unanswered "timeout") else none;
  lists = λ n. none;
}

flaky_adapter-IsSafeAdapter_example :
    (S : IsSafeAdapter (flaky_adapter texts lossy)) × ((n : ℕ)
      → S.IsValid (record { table = []; count = n }))
    × ((c : Connection texts) (id : String) → S.state_of c id ≡ row_state texts c.table id)
flaky_adapter-IsSafeAdapter_example = flaky_adapter-IsSafeAdapter texts lossy

abbrev unrecorded : Connection texts
unrecorded = record { table = []; count = 0 }

-- The write after the push is refused.
abbrev locked : Driver
locked = record {
  writes = λ n. if n == 1 then some (refused "database is locked") else none;
  reads = λ n id. none;
  read_backs = λ n id. none;
  lists = λ n. none;
}

-- The service has accepted the push, with the checkout ID "ws_2".
initiate_payment_unrecorded_example :
    let out =
      initiate_payment
        (flaky_adapter texts locked)
        config
        accepting
        payment
        "s2"
        (pos 20)
        (λ c. c)
        unrecorded in
    ((e : Error) × (out.result ≡ err e))
    × (out.timer ≡ none)
    × ((row_state texts out.db.table "s2" ≡ none)
        ⊎ (row_state texts out.db.table "s2" ≡ some created))
    × ((k : String)
        → k ≢ ""
        → find_checkout texts k [] ≡ none
        → (code : ℤ) (u : Option Update) (others : Connection texts → Connection texts)
        → (e : Error) × (handle_callback (flaky_adapter texts locked) k code u others out.db
            ≡ (err e, out.db)))
unfolding lookup
initiate_payment_unrecorded_example =
    initiate_payment_unrecorded texts locked config accepting payment "s2" (pos 20) unrecorded
      "database is locked" refl refl
