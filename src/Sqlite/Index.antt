-- ===== src/Sqlite/Index.antt =====
-- store/sqlite/sqlite.go: the search by checkout ID over a `Create` and a `Transition`, with a driver
-- that does not fail.
use malipo.Base.{String, ◌≡◌, ◌∙◌, inl, inr, false, none, some, [], ◌∷◌, arith}
use malipo.Base.{if◌then◌else◌, Option-cases, eq_refl, str_eq}
use malipo.Base.Map.{lookup, insert}
use malipo.Store.State.{State}
use malipo.Store.Session.{Session, Update}
use malipo.Store.Error.{ok, err, not_found}
use malipo.Sqlite.Clock.{TimeText}
use malipo.Sqlite.Defs.{
  Row, Table, create, new_row, coalesce, find_checkout, has_checkout, get_by_checkout_id,
  transition,
}
use malipo.Sqlite.Invariant.{
  IsValid, scan_session-HasTimes, transition_cases, coalesce-HasTimes, found_row,
}

module _ (T : TimeText) where
  -- Where no row has a checkout ID, a write of a row is found exactly if it has it.
  pub find_checkout-insert :
      (c id : String) (row : Row T) (t : Table T)
      → find_checkout T c t ≡ none
      → find_checkout T c (insert id row t) ≡ (if has_checkout T c row then some row else none)
  unfolding find_checkout insert
  find_checkout-insert c id row [] h = ground arith
  find_checkout-insert c id row ((k, r) ∷ t) h = ground (arith, find_checkout-insert c id row t)

  -- In a valid table, a checkout ID that leads to no session is in no row.
  unindexed :
      (c : String) (t : Table T)
      → IsValid T t
      → get_by_checkout_id T none c t ≡ err not_found
      → find_checkout T c t ≡ none
  unfolding get_by_checkout_id
  unindexed c t v h = elim (Option-cases (find_checkout T c t)) [
    | inl absent ↦ absent
    | inr (row, p) ↦
        let (k, q) = found_row T c t v.distinct p in
        let (s, read, _, _) = scan_session-HasTimes T row (v.timed k row q) in absurd (ground arith)
  ]

  pub create_unindexed :
      (c : String) (s : Session) (t : Table T)
      → IsValid T t
      → get_by_checkout_id T none c t ≡ err not_found
      → str_eq s.checkout_request_id c ≡ false
      → get_by_checkout_id T none c (create T none s t).1 ≡ err not_found
  unfolding create get_by_checkout_id new_row
  create_unindexed c s t v h other =
      ground (arith, unindexed c t v h, find_checkout-insert c s.id (new_row T s) t)

  pub transition_indexed :
      (id : String) (from to : State) (u : Update) (c : String) (t : Table T) {row : Row T}
      → IsValid T t
      → lookup id t ≡ some row
      → row.state ≡ from
      → u.checkout_request_id ≡ some c
      → get_by_checkout_id T none c t ≡ err not_found
      → (s : Session) × (get_by_checkout_id T none c (transition T none id from to (some u) t).1
          ≡ ok s)
        × (s.id ≡ id)
        × (s.state ≡ to)
  unfolding get_by_checkout_id
  transition_indexed id from to u c t {row} v p at set h =
      elim (transition_cases T id from to (some u) t) [
        | inl (e, away) ↦ absurd (away row p at)
        | inr (r, q, _, e) ↦
            let r' : Row T = coalesce T to (some u) r in
            let (s, read, own, state) =
              scan_session-HasTimes T r' (coalesce-HasTimes T to (some u) r (v.timed id r q)) in
            (
              s,
              rw e (ground (arith, unindexed c t v h, find_checkout-insert c id r' t, eq_refl c)),
              own ∙ v.keyed id r q,
              state,
            )
      ]
