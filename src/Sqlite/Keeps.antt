-- ===== src/Sqlite/Keeps.antt =====
-- Every method keeps the invariant of the table, with a driver that does not fail.
use mathlib.Core.Option
use malipo.Base.{String, ◌≡◌, refl, inl, inr, Option, none, some, [], ◌∷◌, arith, ap, ◌∙◌}
use malipo.Base.{if◌then◌else◌, Option-cases, Bool-cases}
use malipo.Base.Map.{lookup, Distinct}
use malipo.Store.State.{State, timeout}
use malipo.Store.Session.{Session, Update, Time}
use malipo.Sqlite.Clock.{TimeText}
use malipo.Sqlite.Defs.{
  spent_row, Row, Table, create, insert_row, new_row, coalesce, transition, consume_if_confirmed,
  expire_rows, expire_stale, is_stale,
}
use malipo.Sqlite.Rows.{consume_row_cases}
use malipo.Sqlite.Invariant.{
  IsValid, HasTimes, write-IsValid, id-new_row, new_row-HasTimes, coalesce-HasTimes, id-coalesce,
  transition_cases,
}

module _ (T : TimeText) where
  pub create-IsValid : (s : Session) (t : Table T) → IsValid T t → IsValid T (create T none s t).1
  unfolding create
  create-IsValid s t v = elim (Option-cases (lookup s.id t)) [
    | inl fresh ↦
        rw (create, insert_row, fresh)
          (write-IsValid T s.id (new_row T s) t (id-new_row T s) (new_row-HasTimes T s) v)
    | inr (row, taken) ↦ rw (create, insert_row, taken) v
  ]

  pub transition-IsValid :
      (id : String) (from to : State) (u : Option Update) (t : Table T)
      → IsValid T t
      → IsValid T (transition T none id from to u t).1
  transition-IsValid id from to u t v = elim (transition_cases T id from to u t) [
    | inl (e, away) ↦ rw e v
    | inr (row, p, at, e) ↦ rw e (
        write-IsValid T id (coalesce T to u row) t (id-coalesce T to u row ∙ v.keyed id row p)
          (coalesce-HasTimes T to u row (v.timed id row p)) v)
  ]

  pub spent_row-HasTimes :
      (now : Time) (row : Row T) → HasTimes T row → HasTimes T (spent_row T now row)
  spent_row-HasTimes now row v = record {
    created = v.created;
    expires = v.expires;
    spent = rw (T.parse-format now);
  }

  pub consume-IsValid :
      (now : Time) (id : String) (t : Table T)
      → IsValid T t
      → IsValid T (consume_if_confirmed T now none none id t).1
  consume-IsValid now id t v = elim (consume_row_cases T now id t) [
    | inl (x, e) ↦ rw e v
    | inr (row, p, e) ↦ rw e (
        write-IsValid T id (spent_row T now row) t (v.keyed id row p)
          (spent_row-HasTimes now row (v.timed id row p)) v)
  ]

  abbrev pub expire_row : T.Text → Row T → Row T
  expire_row before row = if is_stale T before row then record row { state = timeout } else row

  pub lookup-expire_rows :
      (before : T.Text) (k : String) (t : Table T)
      → lookup k (expire_rows T before t).0 ≡ Option.map (expire_row before) (lookup k t)
  unfolding lookup expire_rows
  lookup-expire_rows before k [] = refl
  lookup-expire_rows before k ((j, row) ∷ t) = ground (arith, lookup-expire_rows before k t)

  Distinct-expire_rows :
      (before : T.Text) (t : Table T) → Distinct t → Distinct (expire_rows T before t).0
  unfolding expire_rows
  Distinct-expire_rows before [] d = tt
  Distinct-expire_rows before ((j, row) ∷ t) d =
      ground (arith, lookup-expire_rows before j t, Distinct-expire_rows before t)

  expire_row-HasTimes :
      (before : T.Text) (row : Row T) → HasTimes T row → HasTimes T (expire_row before row)
  expire_row-HasTimes before row v = elim (Bool-cases (is_stale T before row)) [
    | inl stale ↦ rw stale (record { created = v.created; expires = v.expires; spent = v.spent })
    | inr fresh ↦ rw fresh v
  ]

  id-expire_row : (before : T.Text) (row : Row T) → (expire_row before row).id ≡ row.id
  id-expire_row before row = ground arith

  swept :
      (before : T.Text) (k : String) (r : Row T) (t : Table T)
      → lookup k (expire_rows T before t).0 ≡ some r
      → (row : Row T) × (lookup k t ≡ some row) × (r ≡ expire_row before row)
  swept before k r t h = elim (Option-cases (lookup k t)) [
    | inl absent ↦ absurd (ground (arith, lookup-expire_rows before k t))
    | inr (row, p) ↦ (row, p, ground (arith, lookup-expire_rows before k t))
  ]

  pub expire-IsValid :
      (before : Time) (t : Table T) → IsValid T t → IsValid T (expire_stale T none before t).1
  unfolding expire_stale
  expire-IsValid before t v = record {
    keyed = λ k r h.
        let (row, p, same) = swept (T.format before) k r t h in
        ap (λ (x : Row T). x.id) same ∙ id-expire_row (T.format before) row ∙ v.keyed k row p;
    timed = λ k r h.
        let (row, p, same) = swept (T.format before) k r t h in
        rw same (expire_row-HasTimes (T.format before) row (v.timed k row p));
    distinct = Distinct-expire_rows (T.format before) t v.distinct;
  }
