-- ===== src/Sqlite/Writes.antt =====
-- store/sqlite/sqlite.go: what the four statements that write do to the states of the rows, with a driver that
-- does not fail.
use malipo.Base.{String, ◌≡◌, ◌≢◌, refl, ◌∙◌, ◌⊎◌, inl, inr, false, Option, none, some, arith}
use malipo.Base.{if◌then◌else◌, Option-cases, Bool-cases}
use malipo.Base.Map.{lookup, insert, lookup-insert}
use malipo.Store.State.{State, confirmed, consumed, timeout, is_terminal, state_eq, state_eq_iff}
use malipo.Store.Session.{Session, Update, Time}
use malipo.Store.Error.{
  Error, ok, err, not_found, session_exists, already_consumed, invalid_transition,
}
use malipo.Store.Adapter.{SetsState}
use malipo.Sqlite.Clock.{TimeText}
use malipo.Sqlite.Defs.{
  spent_row, consume_between, Row, Table, create, insert_row, get, transition, consume_if_confirmed,
  expire_stale, is_stale, new_row, coalesce, update_row,
}
use malipo.Sqlite.Rows.{consume_row_met}
use malipo.Sqlite.Invariant.{IsValid, scan_session-HasTimes, transition_cases}
use malipo.Sqlite.Keeps.{spent_row-HasTimes, lookup-expire_rows}
use malipo.Sqlite.Reads.{row_state}

module _ (T : TimeText) where
  row_set :
      (id : String) (row : Row T) (st : State) (t : Table T)
      → row.state ≡ st
      → SetsState (row_state T t) (row_state T (insert id row t)) id st
  row_set id row st t at j = ground (arith, lookup-insert id j row t)

  pub create_fresh :
      (s : Session) (t : Table T)
      → row_state T t s.id ≡ none
      → ((create T none s t).0 ≡ ok tt)
        × SetsState (row_state T t) (row_state T (create T none s t).1) s.id s.state
  unfolding create new_row
  create_fresh s t h =
      let fresh : lookup s.id t ≡ none = ground arith in
      rw (create, insert_row, fresh) (refl, row_set s.id (new_row T s) s.state t refl)

  pub create_taken :
      (s : Session) (t : Table T) {st : State}
      → row_state T t s.id ≡ some st
      → create T none s t ≡ (err session_exists, t)
  unfolding create
  create_taken s t h = ground arith

  state-coalesce : (to : State) (u : Option Update) (row : Row T) → (coalesce T to u row).state ≡ to
  state-coalesce to none row = refl
  state-coalesce to (some u) row = refl

  pub transition_met :
      (id : String) (from to : State) (u : Option Update) (t : Table T)
      → is_terminal from ≡ false
      → row_state T t id ≡ some from
      → ((transition T none id from to u t).0 ≡ ok tt)
        × SetsState (row_state T t) (row_state T (transition T none id from to u t).1) id to
  transition_met id from to u t live at = elim (transition_cases T id from to u t) [
    | inl (e, away) ↦ elim (Option-cases (lookup id t)) [
      | inl absent ↦ absurd (ground arith)
      | inr (row, p) ↦ absurd (away row p (ground arith))
    ]
    | inr (row, p, same, e) ↦
        rw e (refl, row_set id (coalesce T to u row) to t (state-coalesce to u row))
  ]

  pub transition_unmet :
      (id : String) (from to : State) (u : Option Update) (t : Table T)
      → is_terminal from ≡ false
      → row_state T t id ≢ some from
      → (e : Error) × (transition T none id from to u t ≡ (err e, t))
  transition_unmet id from to u t live away = elim (transition_cases T id from to u t) [
    | inl (e, _) ↦ (invalid_transition, e)
    | inr (row, p, same, e) ↦ absurd (away (ground arith))
  ]

  module _ (now : Time) (id : String) (t : Table T) where
    pub consume_confirmed :
        IsValid T t
        → row_state T t id ≡ some confirmed
        → (s : Session) × ((consume_if_confirmed T now none none id t).0 ≡ ok s)
          × SetsState
              (row_state T t)
              (row_state T (consume_if_confirmed T now none none id t).1)
              id
              consumed
    consume_confirmed v at = elim (Option-cases (lookup id t)) [
      | inl absent ↦ absurd (ground arith)
      | inr (row, p) ↦
          let (s, read, _, _) =
            scan_session-HasTimes T (spent_row T now row)
              (spent_row-HasTimes T now row (v.timed id row p)) in
          (
            s,
            rw (consume_row_met T now id t row p (ground arith)) read,
            rw (consume_row_met T now id t row p (ground arith))
                (row_set id (spent_row T now row) consumed t refl),
          )
    ]

    pub consume_absent :
        row_state T t id ≡ none → consume_if_confirmed T now none none id t ≡ (err not_found, t)
    unfolding consume_between update_row get
    consume_absent h = ground arith

    unconsumed_row :
        {st : State}
        → IsValid T t
        → row_state T t id ≡ some st
        → st ≢ confirmed
        → consume_if_confirmed T now none none id t
          ≡ (if state_eq st consumed then err already_consumed else err invalid_transition, t)
    unfolding consume_between update_row get
    unconsumed_row {st} v h early = elim (Option-cases (lookup id t)) [
      | inl absent ↦ absurd (ground arith)
      | inr (row, p) ↦
          let (s, read, own, at) = scan_session-HasTimes T row (v.timed id row p) in
          ground (arith, state_eq_iff st confirmed)
    ]

    pub consume_spent :
        IsValid T t
        → row_state T t id ≡ some consumed
        → consume_if_confirmed T now none none id t ≡ (err already_consumed, t)
    unfolding state_eq
    consume_spent v h = unconsumed_row v h (λ e. cc)

    pub consume_early :
        {st : State}
        → IsValid T t
        → row_state T t id ≡ some st
        → st ≢ confirmed
        → st ≢ consumed
        → consume_if_confirmed T now none none id t ≡ (err invalid_transition, t)
    consume_early {st} v h p q = unconsumed_row v h p ∙ ground (arith, state_eq_iff st consumed)

  pub expire_states :
      (before : Time) (t : Table T) (id : String)
      → (row_state T (expire_stale T none before t).1 id ≡ row_state T t id)
        ⊎ ((s : State) × (row_state T t id ≡ some s)
            × (is_terminal s ≡ false)
            × (row_state T (expire_stale T none before t).1 id ≡ some timeout))
  unfolding expire_stale
  expire_states before t id = elim (Option-cases (lookup id t)) [
    | inl absent ↦ inl (ground (arith, lookup-expire_rows T (T.format before) id t))
    | inr (row, p) ↦ elim (Bool-cases (is_stale T (T.format before) row)) [
      | inl stale ↦ inr (
        row.state,
        rw p,
        ground arith,
        ground (arith, lookup-expire_rows T (T.format before) id t),
      )
      | inr fresh ↦ inl (ground (arith, lookup-expire_rows T (T.format before) id t))
    ]
  ]
