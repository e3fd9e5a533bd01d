-- ===== src/Sqlite/Reads.antt =====
-- store/sqlite/sqlite.go: the states that the rows of a table hold, and what the three queries read of them.
use mathlib.Core.Option
use malipo.Base.{String, ◌≡◌, refl, ◌∙◌, inl, inr, true, Option, none, some, List, [], ◌∷◌, arith}
use malipo.Base.{All, Option-cases, Bool-cases}
use malipo.Base.Map.{lookup, All-entries}
use malipo.Store.State.{State}
use malipo.Store.Session.{Session, Time}
use malipo.Store.Error.{ok, err, not_found}
use malipo.Store.Adapter.{is_pending}
use malipo.Sqlite.Clock.{TimeText}
use malipo.Sqlite.Defs.{Row, Table, get, get_by_checkout_id, find_checkout, scan_session}
use malipo.Sqlite.Listing.{list_pending, pending_rows, is_due}
use malipo.Sqlite.Invariant.{IsValid, HasTimes, scan_session-HasTimes, found_row}

module _ (T : TimeText) where
  abbrev pub row_state : Table T → String → Option State
  row_state t id = Option.map (λ row. row.state) (lookup id t)

  pub get_absent :
      (id : String) (t : Table T) → row_state t id ≡ none → get T none id t ≡ err not_found
  unfolding get
  get_absent id t h = ground arith

  pub get_present :
      (id : String) (t : Table T) {st : State}
      → IsValid T t
      → row_state t id ≡ some st
      → (s : Session) × (get T none id t ≡ ok s) × (s.id ≡ id) × (s.state ≡ st)
  unfolding get
  get_present id t v h = elim (Option-cases (lookup id t)) [
    | inl absent ↦ absurd (ground arith)
    | inr (row, p) ↦
        let (s, read, own, at) = scan_session-HasTimes T row (v.timed id row p) in
        (s, ground arith, own ∙ v.keyed id row p, ground arith)
  ]

  pub get_by_checkout_held :
      (c : String) (t : Table T) {s : Session}
      → IsValid T t
      → get_by_checkout_id T none c t ≡ ok s
      → row_state t s.id ≡ some s.state
  unfolding get_by_checkout_id
  get_by_checkout_held c t {s} v h = elim (Option-cases (find_checkout T c t)) [
    | inl absent ↦ absurd (ground arith)
    | inr (row, p) ↦
        let (k, q) = found_row T c t v.distinct p in
        let (s', read, own, at) = scan_session-HasTimes T row (v.timed k row q) in
        let same : s' ≡ s = ground arith in ground (arith, v.keyed k row q)
  ]

  pending_read :
      (P : Session → Type 0) (before : T.Text) (t : Table T)
      → All (λ (e : String × Row T). HasTimes T e.1) t
      → All
          (λ (e : String × Row T).
            (s : Session) → scan_session T e.1 ≡ ok s → is_due T before e.1 ≡ true → P s)
          t
      → (l : List Session) × (pending_rows T before t ≡ ok l) × All P l
  unfolding pending_rows
  pending_read P before [] times h = ([], refl, tt)
  pending_read P before ((k, row) ∷ t) times h =
      let (l, e, each) = pending_read P before t times.1 h.1 in
      elim (Bool-cases (is_due T before row)) [
        | inl due ↦
            let (s, read, _, _) = scan_session-HasTimes T row times.0 in
            (s ∷ l, ground arith, (h.0 s read due, each))
        | inr early ↦ (l, ground arith, each)
      ]

  pub list_pending_held :
      (before : Time) (t : Table T)
      → IsValid T t
      → (l : List Session) × (list_pending T none before t ≡ ok l)
        × All (λ s. (row_state t s.id ≡ some s.state) × (is_pending s.state ≡ true)) l
  unfolding list_pending
  list_pending_held before t v =
      pending_read _ (T.format before) t (All-entries _ t v.distinct (λ k row p. v.timed k row p)) (
        All-entries _ t v.distinct λ k row p s read due.
          let (s', read', own, at) = scan_session-HasTimes T row (v.timed k row p) in
          let same : s' ≡ s = ground arith in (ground (arith, v.keyed k row p), ground arith))
