-- ===== src/Sqlite/Rows.antt =====
-- store/sqlite/sqlite.go: what the table gives back after a `Create` and after a `ConsumeIfConfirmed`.
use malipo.Base.{String, ◌≡◌, refl, ◌⊎◌, inl, inr, none, some, arith}
use malipo.Base.{eq_refl, Option-cases, Bool-cases}
use malipo.Base.Map.{lookup, insert, lookup-insert}
use malipo.Store.State.{confirmed, consumed, state_eq, state_eq_iff}
use malipo.Store.Session.{Session, Time}
use malipo.Store.Error.{
  Error, Result-cases, ok, err, not_found, invalid_transition, already_consumed,
}
use malipo.Sqlite.Clock.{TimeText, floor_second}
use malipo.Sqlite.Defs.{
  spent_row, consume_between, Row, Table, get, scan_session, update_row, consume_if_confirmed,
  create, new_row, parsed,
}

-- A session as the table keeps it: its times lose what is below the second.
abbrev pub stored : Session → Session
stored s = record s {
  created_at = floor_second s.created_at;
  expires_at = floor_second s.expires_at;
  consumed_at = elim s.consumed_at [ none ↦ none | some t ↦ some (floor_second t) ];
}

module _ (T : TimeText) where
  scan_session-new_row : (s : Session) → scan_session T (new_row T s) ≡ ok (stored s)
  unfolding scan_session new_row
  scan_session-new_row s = elim (Option-cases s.consumed_at) [
    | inl e ↦ ground (arith, T.parse-format s.created_at, T.parse-format s.expires_at)
    | inr (c, e) ↦
        ground
          (arith, T.parse-format s.created_at, T.parse-format s.expires_at, T.parse-format_local c)
  ]

  -- With no driver failure and an ID that no row has, the session that `Create` stored is what
  -- `Get` returns, with its times cut to the second.
  pub get-create :
      (s : Session) (t : Table T)
      → lookup s.id t ≡ none
      → get T none s.id (create T none s t).1 ≡ ok (stored s)
  unfolding get create
  get-create s t fresh =
      ground (
        arith,
        fresh,
        lookup-insert s.id s.id (new_row T s) t,
        eq_refl s.id,
        scan_session-new_row s,
      )

  scan_session-state : (row : Row T) (s : Session) → scan_session T row ≡ ok s → s.state ≡ row.state
  unfolding scan_session
  scan_session-state row s h = elim (Option-cases (T.parse row.created_at)) [
    | inl bad ↦ ground (arith, bad)
    | inr (c, e) ↦ elim (Option-cases (T.parse row.expires_at)) [
      | inl bad ↦ ground (arith, bad, e)
      | inr (x, f) ↦ elim (Result-cases (parsed T row.consumed_at)) [
        | inl (bad, g) ↦ ground (arith, g, e, f)
        | inr (spent, g) ↦ ground (arith, g, e, f)
      ]
    ]
  ]

  -- A confirmed row is affected, whatever can be read from it afterwards.
  pub consume_row_met :
      (now : Time) (id : String) (t : Table T) (row : Row T)
      → lookup id t ≡ some row
      → row.state ≡ confirmed
      → consume_if_confirmed T now none none id t
        ≡ (scan_session T (spent_row T now row), insert id (spent_row T now row) t)
  unfolding consume_between update_row get
  consume_row_met now id t row p at = ground (
    arith,
    lookup-insert id id (spent_row T now row) t,
    eq_refl id,
    state_eq_iff row.state confirmed,
  )

  -- A consumption affects a confirmed row or leaves the table and fails.
  pub consume_row_cases :
      (now : Time) (id : String) (t : Table T)
      → ((e : Error) × (consume_if_confirmed T now none none id t ≡ (err e, t)))
        ⊎ ((row : Row T) × (lookup id t ≡ some row)
            × (consume_if_confirmed T now none none id t
                ≡ (scan_session T (spent_row T now row), insert id (spent_row T now row) t)))
  unfolding consume_between update_row get
  consume_row_cases now id t = elim (Option-cases (lookup id t)) [
    | inl absent ↦ inl (not_found, ground arith)
    | inr (row, p) ↦ elim (Bool-cases (state_eq row.state confirmed)) [
      | inl met ↦
          inr (row, p, consume_row_met now id t row p ((state_eq_iff row.state confirmed).0 met))
      | inr unmet ↦ elim (Result-cases (scan_session T row)) [
        | inl (e, bad) ↦ inl (e, ground arith)
        | inr (s, good) ↦ elim (Bool-cases (state_eq s.state consumed)) [
          | inl over ↦ inl (already_consumed, ground arith)
          | inr early ↦ inl (invalid_transition, ground arith)
        ]
      ]
    ]
  ]

  -- A row that is consumed and scans is refused.
  pub consume_row_spent :
      (later : Time) (id : String) (t : Table T) (row : Row T) (s : Session)
      → lookup id t ≡ some row
      → row.state ≡ consumed
      → scan_session T row ≡ ok s
      → consume_if_confirmed T later none none id t ≡ (err already_consumed, t)
  unfolding consume_between update_row get
  consume_row_spent later id t row s p over good =
      let at = scan_session-state row s good in
      ground (arith, state_eq_iff row.state confirmed, state_eq_iff s.state consumed)

  -- With no driver failure: once `ConsumeIfConfirmed` has returned a session, the next call for the
  -- same ID returns that it is already consumed, and the table stays.
  consume_row_once :
      (now later : Time) (id : String) (t : Table T) (s : Session)
      → (consume_if_confirmed T now none none id t).0 ≡ ok s
      → let t' = (consume_if_confirmed T now none none id t).1 in
        consume_if_confirmed T later none none id t' ≡ (err already_consumed, t')
  consume_row_once now later id t s h = elim (consume_row_cases now id t) [
    | inl (e, q) ↦ ground arith
    | inr (row, p, q) ↦ rw q (
        consume_row_spent later id (insert id (spent_row T now row) t) (spent_row T now row) s
          (ground (arith, lookup-insert id id (spent_row T now row) t, eq_refl id)) refl
          (ground arith))
  ]
