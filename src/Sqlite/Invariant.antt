-- ===== src/Sqlite/Invariant.antt =====
-- What holds of the table between two statements, and the ways that an UPDATE of one row can go.
use malipo.Base.{
  String, ◌≡◌, ◌≢◌, refl, ◌⊎◌, inl, inr, Bool, true, Option, none, some, [], ◌∷◌, arith, ap, ◌∙◌,
  subst,
}
use malipo.Base.{if◌then◌else◌, is_some, Option-cases, Bool-cases, eq_iff, str_eq}
use malipo.Base.Map.{
  lookup, insert, lookup-insert, Distinct, insert-Distinct, lookup-cons_self, lookup-cons_of_some,
}
use malipo.Store.State.{State, state_eq, state_eq_iff}
use malipo.Store.Session.{Session, Update}
use malipo.Store.Error.{Error, Result-cases, ok, err, invalid_transition}
use malipo.Sqlite.Clock.{TimeText}
use malipo.Sqlite.Defs.{
  Row, Table, new_row, update_row, coalesce, affected, transition, scan_session, session_of, parsed,
  find_checkout, has_checkout,
}

module _ (T : TimeText) where
  abbrev pub parses : Option T.Text → Bool
  parses none = true
  parses (some text) = is_some (T.parse text)

  -- The three times of a row are texts that `scanSession` can read.
  pub record HasTimes (row : Row T) : Type 0 where
    pub created : is_some (T.parse row.created_at) ≡ true
    pub expires : is_some (T.parse row.expires_at) ≡ true
    pub spent : parses row.consumed_at ≡ true

  -- Every row stands under its own ID and can be read, and no ID stands twice.
  pub record IsValid (t : Table T) : Type 0 where
    pub keyed : (k : String) (row : Row T) → lookup k t ≡ some row → row.id ≡ k
    pub timed : (k : String) (row : Row T) → lookup k t ≡ some row → HasTimes row
    pub distinct : Distinct t

  pub empty-IsValid : IsValid []
  unfolding lookup
  empty-IsValid = record { keyed = λ k row h. cc; timed = λ k row h. absurd (cc h); distinct = tt }

  parsed_fails : (o : Option T.Text) (e : Error) → parses o ≡ true → parsed T o ≢ err e
  parsed_fails none e h = λ g. cc
  parsed_fails (some text) e h = λ g. elim (Option-cases (T.parse text)) [
    | inl bad ↦ ground (arith, bad)
    | inr (t, good) ↦ ground (arith, good)
  ]

  -- A row that can be read is read with its own ID and state.
  pub scan_session-HasTimes :
      (row : Row T)
      → HasTimes row
      → (s : Session) × (scan_session T row ≡ ok s) × (s.id ≡ row.id) × (s.state ≡ row.state)
  unfolding scan_session
  scan_session-HasTimes row v = elim (Option-cases (T.parse row.created_at)) [
    | inl bad ↦ absurd (ground (arith, bad))
    | inr (c, e) ↦ elim (Option-cases (T.parse row.expires_at)) [
      | inl bad ↦ absurd (ground (arith, bad))
      | inr (x, f) ↦ elim (Result-cases (parsed T row.consumed_at)) [
        | inl (bad, g) ↦ absurd (parsed_fails row.consumed_at bad v.spent g)
        | inr (o, g) ↦ (session_of T row c x o, ground (arith, e, f, g), refl, refl)
      ]
    ]
  ]

  pub id-new_row : (s : Session) → (new_row T s).id ≡ s.id
  unfolding new_row
  id-new_row s = refl

  pub new_row-HasTimes : (s : Session) → HasTimes (new_row T s)
  unfolding new_row
  new_row-HasTimes s = elim (Option-cases s.consumed_at) [
    | inl e ↦ ground (arith, T.parse-format s.created_at, T.parse-format s.expires_at)
    | inr (c, e) ↦
        ground
          (arith, T.parse-format s.created_at, T.parse-format s.expires_at, T.parse-format_local c)
  ]

  pub write-IsValid :
      (id : String) (row : Row T) (t : Table T)
      → row.id ≡ id
      → HasTimes row
      → IsValid t
      → IsValid (insert id row t)
  write-IsValid id row t own times v = record {
    keyed = λ k r h. written_keyed k r (rw (lookup-insert id k row t) at h);
    timed = λ k r h. written_timed k r (rw (lookup-insert id k row t) at h);
    distinct = insert-Distinct id row t v.distinct;
  }
    where
      written_keyed :
          (k : String) (r : Row T)
          → (if str_eq id k then some row else lookup k t) ≡ some r
          → r.id ≡ k
      written_keyed k r h = elim (Bool-cases (str_eq id k)) [
        | inl same ↦ ground (arith, eq_iff id k)
        | inr other ↦ v.keyed k r (ground arith)
      ]

      written_timed :
          (k : String) (r : Row T)
          → (if str_eq id k then some row else lookup k t) ≡ some r
          → HasTimes r
      written_timed k r h = elim (Bool-cases (str_eq id k)) [
        | inl same ↦ let e : row ≡ r = ground arith in subst HasTimes e times
        | inr other ↦ v.timed k r (ground arith)
      ]

  -- An UPDATE affects the row that has the ID and the state, or nothing.
  update_row_cases :
      (id : String) (from : State) (f : Row T → Row T) (t : Table T)
      → ((update_row T id from f t ≡ (t, 0))
          × ((row : Row T) → lookup id t ≡ some row → row.state ≢ from))
        ⊎ ((row : Row T) × (lookup id t ≡ some row)
            × (row.state ≡ from)
            × (update_row T id from f t ≡ (insert id (f row) t, 1)))
  unfolding update_row
  update_row_cases id from f t = elim (Option-cases (lookup id t)) [
    | inl absent ↦ inl (ground arith, λ row h. cc)
    | inr (row, p) ↦ elim (Bool-cases (state_eq row.state from)) [
      | inl met ↦ inr (row, p, (state_eq_iff row.state from).0 met, ground arith)
      | inr unmet ↦ inl (ground arith, λ r h e. ground (arith, state_eq_iff row.state from))
    ]
  ]

  -- A transition writes the row or is refused.
  pub transition_cases :
      (id : String) (from to : State) (u : Option Update) (t : Table T)
      → ((transition T none id from to u t ≡ (err invalid_transition, t))
          × ((row : Row T) → lookup id t ≡ some row → row.state ≢ from))
        ⊎ ((row : Row T) × (lookup id t ≡ some row)
            × (row.state ≡ from)
            × (transition T none id from to u t ≡ (ok tt, insert id (coalesce T to u row) t)))
  unfolding transition
  transition_cases id from to u t = elim (update_row_cases id from (coalesce T to u) t) [
    | inl (e, away) ↦ inl (ap (affected T) e, away)
    | inr (row, p, at, e) ↦ inr (row, p, at, ap (affected T) e)
  ]

  pub coalesce-HasTimes :
      (to : State) (u : Option Update) (row : Row T) → HasTimes row → HasTimes (coalesce T to u row)
  coalesce-HasTimes to none row v = record {
    created = v.created;
    expires = v.expires;
    spent = v.spent;
  }
  coalesce-HasTimes to (some u) row v = elim (Option-cases u.consumed_at) [
    | inl e ↦ record { created = v.created; expires = v.expires; spent = rw e v.spent }
    | inr (c, e) ↦ record {
      created = v.created;
      expires = v.expires;
      spent = rw (e, T.parse-format c);
    }
  ]

  pub id-coalesce :
      (to : State) (u : Option Update) (row : Row T) → (coalesce T to u row).id ≡ row.id
  id-coalesce to none row = refl
  id-coalesce to (some u) row = refl

  -- A row that is found stands in the table.
  pub found_row :
      (c : String) (t : Table T) {row : Row T}
      → Distinct t
      → find_checkout T c t ≡ some row
      → (k : String) × (lookup k t ≡ some row)
  unfolding find_checkout
  found_row c [] d h = absurd (cc h)
  found_row c ((k, r) ∷ t) d h = elim (Bool-cases (has_checkout T c r)) [
    | inl here ↦ (k, lookup-cons_self k r t ∙ ground arith)
    | inr later ↦
        let (j, p) = found_row c t d.1 (ground arith) in (j, lookup-cons_of_some k j r _ t d.0 p)
  ]
