-- ===== src/Tests/SqliteTests.antt =====
-- store/sqlite/sqlite.go, with a driver that does not fail.
use malipo.Base.{true, ◌≡◌, ◌≢◌, ◌⊎◌, refl, ◌↔◌, none, some, [], ◌∷◌}
use malipo.Base.Int.{ℤ, pos, ltb_ℤ}
use malipo.Base.Map.{lookup}
use malipo.Store.State.{is_terminal, State, created, stk_pushed, confirmed, timeout}
use malipo.Store.Error.{Error, ok, err, already_consumed, invalid_transition}
use malipo.Sqlite.Driver.{unanswered, uncounted}
use malipo.Sqlite.Clock.{TimeText, floor_second}
use malipo.Sqlite.Defs.{Row, Table, create, get, transition, consume_if_confirmed, new_row}
use malipo.Sqlite.Guards.{transition_row_exact}
use malipo.Sqlite.Rows.{stored, get-create}
use malipo.Sqlite.Failures.{consume_row_lost}
use malipo.Sqlite.Between.{consume_between_ok_iff}
use malipo.Sqlite.Reads.{row_state}
use malipo.Sqlite.Contract.{sqlite_adapter}
use malipo.Sqlite.Invariant.{IsValid, empty-IsValid}
use malipo.Sqlite.Keeps.{create-IsValid}
use malipo.Session.Trace.{Call, consume, expire, run}
use malipo.Store.Session.{Session}
use malipo.Base.{List}
use malipo.Sqlite.Defs.{consume_between}
use malipo.Base.Map.{insert}
use malipo.Store.State.{consumed}
use malipo.Tests.Fixtures.{session_in, config, accepting}
use malipo.Session.Manager.{cleanup_tick}
use malipo.Sqlite.Cleanup.{cleanup_tick_resolves_row}

-- Texts that are the whole seconds they stand for.
abbrev pub texts : TimeText
texts = record {
  Text = ℤ;
  format = floor_second;
  format_local = floor_second;
  parse = some;
  ltb = ltb_ℤ;
  parse-format = λ t. refl;
  parse-format_local = λ t. refl;
  ltb-format = λ s t. refl;
}

abbrev pub table_in : State → Table texts
table_in t = ("s1", new_row texts (session_in t)) ∷ []

-- A terminal session is moved by a caller that names its state, unless the row count is lost.
transition_row_exact_example :
    (((transition texts
          (some (uncounted "no count"))
          "s1"
          timeout
          confirmed
          none
          (table_in timeout)).0
        ≡ ok tt)
      ↔ ((some (uncounted "no count") ≡ none)
          × ((row : Row texts) × (lookup "s1" (table_in timeout) ≡ some row)
              × (row.state ≡ timeout))))
    × ((e : Error)
        → (transition texts none "s1" timeout confirmed none (table_in timeout)).0 ≡ err e
        → ((transition texts none "s1" timeout confirmed none (table_in timeout)).1
            ≡ table_in timeout)
          × (e ≡ invalid_transition)
          × ((lookup "s1" (table_in timeout) ≡ none)
              ⊎ ((row : Row texts) × (lookup "s1" (table_in timeout) ≡ some row)
                  × (row.state ≢ timeout))))
transition_row_exact_example =
    transition_row_exact texts "s1" timeout confirmed none (table_in timeout)
      (some (uncounted "no count"))

get-create_example :
    get texts none "s1" (create texts none (session_in created) []).1
    ≡ ok (stored (session_in created))
unfolding lookup
get-create_example = get-create texts (session_in created) [] refl

abbrev confirmed_row : Row texts
confirmed_row = new_row texts (session_in confirmed)

-- The connection is lost when the row is read back.
consume_row_lost_example :
    let out =
      consume_if_confirmed texts
        (pos 50)
        none
        (some (unanswered "connection lost"))
        "s1"
        (table_in confirmed) in
    ((e : Error) × (out.0 ≡ err e))
    × (consume_if_confirmed texts (pos 60) none none "s1" out.1 ≡ (err already_consumed, out.1))
unfolding lookup new_row
consume_row_lost_example =
    consume_row_lost texts "s1" (table_in confirmed) confirmed_row (pos 50) (pos 60)
      (unanswered "connection lost") refl refl
      (record { created = refl; expires = refl; spent = refl })

pub table_in-IsValid : IsValid texts (table_in confirmed)
unfolding create lookup insert new_row
table_in-IsValid = create-IsValid texts (session_in confirmed) [] (empty-IsValid texts)

-- Another goroutine consumes the session before it is read back, and a sweep finds it expired.
abbrev rivals : List Call
rivals = consume (pos 51) "s1" ∷ expire (pos 200) ∷ []

consume_between_ok_iff_example :
    let out =
      consume_between texts
        (pos 50)
        none
        none
        (run (sqlite_adapter texts) rivals)
        "s1"
        (table_in confirmed) in
    (((s : Session) × (out.0 ≡ ok s))
      ↔ (row_state texts (table_in confirmed) "s1" ≡ some confirmed))
    × ((s : Session)
        → out.0 ≡ ok s
        → (s.id ≡ "s1") × (s.state ≡ consumed) × (row_state texts out.1 "s1" ≡ some consumed))
consume_between_ok_iff_example =
    consume_between_ok_iff texts (pos 50) "s1" rivals (table_in confirmed) table_in-IsValid

-- The recovery pass confirms the session, and the expiry pass of the same tick finds it expired.
cleanup_tick_resolves_row_example :
    (s : State) × (row_state texts
        (cleanup_tick
          (sqlite_adapter texts)
          config
          accepting
          (pos 200)
          (pos 2000000000)
          (λ s. run (sqlite_adapter texts) (consume (pos 210) s.id ∷ []))
          (run (sqlite_adapter texts) (consume (pos 220) "s1" ∷ []))
          (table_in stk_pushed))
        "s1"
      ≡ some s)
    × (is_terminal s ≡ true)
unfolding lookup new_row floor_second
cleanup_tick_resolves_row_example =
    cleanup_tick_resolves_row texts config accepting (pos 200) (pos 2000000000)
      (λ s. consume (pos 210) s.id ∷ []) (consume (pos 220) "s1" ∷ []) (table_in stk_pushed) "s1"
      (new_row texts (session_in stk_pushed)) (pos 100) refl refl refl
