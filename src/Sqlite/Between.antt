-- ===== src/Sqlite/Between.antt =====
-- store/sqlite/sqlite.go: other goroutines between the two statements of `ConsumeIfConfirmed`.
use malipo.Base.{
  String, ◌≡◌, ◌≢◌, refl, subst, ◌↔◌, inl, inr, false, Option, none, some, List, arith,
}
use malipo.Base.{Option-cases, Bool-cases, eq_refl}
use malipo.Base.Map.{lookup, insert, lookup-insert}
use malipo.Store.State.{confirmed, consumed, is_terminal, state_eq, state_eq_iff}
use malipo.Store.Session.{Session, Time}
use malipo.Store.Error.{Error, Result, ok, err, already_consumed, invalid_transition}
use malipo.Sqlite.Clock.{TimeText}
use malipo.Sqlite.Driver.{ReadFault}
use malipo.Sqlite.Defs.{spent_row, Row, Table, consume_between, update_row, unconsumed, get}
use malipo.Sqlite.Rows.{consume_row_met}
use malipo.Sqlite.Invariant.{IsValid}
use malipo.Sqlite.Keeps.{consume-IsValid}
use malipo.Sqlite.Reads.{row_state, get_present}
use malipo.Sqlite.Contract.{sqlite_adapter, sqlite_laws}
use malipo.Session.Manager.Transition.{state_is}
use malipo.Session.Trace.{Call, run}
use malipo.Session.Trace.Safe.{safe}
use malipo.Session.Trace.Release.{run-IsValid, terminal_stays}

module _ (T : TimeText) (now : Time) (id : String) (between : Table T → Table T) (t : Table T) where
  -- A statement that affects the row is followed by the reading of what others then left.
  pub between_met :
      (io : Option ReadFault) (row : Row T)
      → lookup id t ≡ some row
      → row.state ≡ confirmed
      → let t' = between (insert id (spent_row T now row) t) in
        consume_between T now none io between id t ≡ (get T io id t', t')
  unfolding consume_between update_row
  between_met io row p at = ground (arith, state_eq_iff row.state confirmed)

  unconsumed_fails : (r : Result Session) → (e : Error) × (unconsumed T r ≡ err e)
  unconsumed_fails (err e) = (e, refl)
  unconsumed_fails (ok s) = elim (Bool-cases (state_eq s.state consumed)) [
    | inl over ↦ (already_consumed, rw over)
    | inr early ↦ (invalid_transition, rw early)
  ]

  -- A statement that affects no row ends in an error, whatever is read after it.
  pub between_unmet :
      (io : Option ReadFault)
      → row_state T t id ≢ some confirmed
      → (e : Error) × (consume_between T now none io between id t ≡ (err e, between t))
  unfolding consume_between update_row
  between_unmet io away =
      let (e, fails) = unconsumed_fails (get T io id (between t)) in
      elim (Option-cases (lookup id t)) [
        | inl absent ↦ (e, rw (consume_between, update_row, absent, fails))
        | inr (row, p) ↦ (e, rw (consume_between, update_row, p, unmet row p, fails))
      ]
    where
      unmet : (row : Row T) → lookup id t ≡ some row → state_eq row.state confirmed ≡ false
      unmet row p = ground (arith, away, state_eq_iff row.state confirmed)

module _ (T : TimeText) (now : Time) (id : String) (others : List Call) (t : Table T) where
  abbrev out : Result Session × Table T
  out = consume_between T now none none (run (sqlite_adapter T) others) id t

  -- The session that others find consumed stays so, and can be read.
  spent_read :
      IsValid T t
      → row_state T t id ≡ some confirmed
      → (s : Session) × (out.0 ≡ ok s)
        × (s.id ≡ id)
        × (s.state ≡ consumed)
        × (row_state T out.1 id ≡ some consumed)
  unfolding sqlite_laws is_terminal
  spent_read v at = elim (Option-cases (lookup id t)) [
    | inl absent ↦ absurd (ground arith)
    | inr (row, p) ↦
        let L = sqlite_laws T in
        let t1 = insert id (spent_row T now row) t in
        let met : row.state ≡ confirmed = ground arith in
        let valid : IsValid T t1 =
          subst (λ (r : Result Session × Table T). IsValid T r.1)
            (consume_row_met T now id t row p met) (consume-IsValid T now id t v) in
        let spent : row_state T t1 id ≡ some consumed =
          rw (lookup-insert id id (spent_row T now row) t, eq_refl id) in
        let stays =
          terminal_stays (sqlite_adapter T) (safe (sqlite_adapter T) L) others t1 id consumed valid
            refl spent in
        let (s, read, own, state) =
          get_present T id (run (sqlite_adapter T) others t1)
            (run-IsValid (sqlite_adapter T) (safe (sqlite_adapter T) L) others t1 valid) stays in
        rw (between_met T now id (run (sqlite_adapter T) others) t none row p met)
          (s, read, own, state, stays)
  ]

  -- With a driver that does not fail, on a valid table, and with any atomic calls by others between its two
  -- statements: `ConsumeIfConfirmed` returns a session exactly if the session was confirmed when the first
  -- statement ran, and then returns it as consumed and leaves it consumed.
  pub consume_between_ok_iff :
      IsValid T t
      → (((s : Session) × (out.0 ≡ ok s)) ↔ (row_state T t id ≡ some confirmed))
        × ((s : Session)
            → out.0 ≡ ok s
            → (s.id ≡ id) × (s.state ≡ consumed) × (row_state T out.1 id ≡ some consumed))
  consume_between_ok_iff v = elim (state_is (row_state T t id) confirmed) [
    | inl at ↦
        let (s, done, own, state, stays) = spent_read v at in
        ((λ h. at, λ h. (s, done)), λ s' e. ground (arith, done, own, state, stays))
    | inr away ↦
        let (e, fails) = between_unmet T now id (run (sqlite_adapter T) others) t none away in
        (
          (λ h. absurd (ground (arith, fails, h.1)), λ at. absurd (away at)),
          λ s' e'. absurd (ground (arith, fails)),
        )
  ]
