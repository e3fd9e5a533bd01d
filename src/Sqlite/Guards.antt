-- ===== src/Sqlite/Guards.antt =====
-- When the guarded statements of `SQLiteAdapter` succeed, and what they return.
use malipo.Base.{String, refl, ◌≡◌, ◌≢◌, ◌↔◌, ◌⊎◌, inl, inr, Option, none, some, arith}
use malipo.Base.{Option-cases}
use malipo.Base.Map.{lookup}
use malipo.Store.State.{State, state_eq_iff}
use malipo.Store.Session.{Update}
use malipo.Store.Error.{Error, ok, err, invalid_transition}
use malipo.Sqlite.Clock.{TimeText}
use malipo.Sqlite.Driver.{Fault, refused, lost, uncounted}
use malipo.Sqlite.Defs.{Row, Table, update_row, transition}

module _ (T : TimeText) (id : String) (from to : State) (u : Option Update) (t : Table T) where
  -- With no driver failure, `Transition` succeeds exactly when a row has the ID and the state `from`;
  -- whether `from` is terminal is not asked.
  transition_row_ok_iff :
      ((transition T none id from to u t).0 ≡ ok tt)
      ↔ ((row : Row T) × (lookup id t ≡ some row) × (row.state ≡ from))
  unfolding transition update_row
  transition_row_ok_iff = elim (Option-cases (lookup id t)) [
    | inl absent ↦ ground arith
    | inr (row, e) ↦ (
      λ h. (row, e, ground (arith, state_eq_iff row.state from)),
      λ h. ground (arith, state_eq_iff row.state from),
    )
  ]

  -- With no driver failure, a refused `Transition` writes nothing and has one error for a missing row
  -- and for a row in another state.
  transition_row_refused :
      (e : Error)
      → (transition T none id from to u t).0 ≡ err e
      → ((transition T none id from to u t).1 ≡ t)
        × (e ≡ invalid_transition)
        × ((lookup id t ≡ none) ⊎ ((row : Row T) × (lookup id t ≡ some row) × (row.state ≢ from)))
  unfolding transition update_row
  transition_row_refused e h = elim (Option-cases (lookup id t)) [
    | inl absent ↦ ground arith
    | inr (row, p) ↦
        (ground arith, ground arith, inr (row, p, ground (arith, state_eq_iff row.state from)))
  ]

  -- `Transition` succeeds exactly if the driver does not fail and a row has the ID and the state `from`;
  -- whether `from` is terminal is not asked. With a driver that does not fail, a refused `Transition`
  -- writes nothing and has one error for a missing row and for a row in another state.
  pub transition_row_exact :
      (io : Option Fault)
      → (((transition T io id from to u t).0 ≡ ok tt)
          ↔ ((io ≡ none) × ((row : Row T) × (lookup id t ≡ some row) × (row.state ≡ from))))
        × ((e : Error)
            → (transition T none id from to u t).0 ≡ err e
            → ((transition T none id from to u t).1 ≡ t)
              × (e ≡ invalid_transition)
              × ((lookup id t ≡ none)
                  ⊎ ((row : Row T) × (lookup id t ≡ some row) × (row.state ≢ from))))
  unfolding transition
  transition_row_exact none =
      let (left, right) = transition_row_ok_iff in
      ((λ h. (refl, left h), λ h. right h.1), transition_row_refused)
  transition_row_exact (some (refused msg)) =
      ((λ h. absurd (cc h), λ h. absurd (cc h.0)), transition_row_refused)
  transition_row_exact (some (lost msg)) =
      ((λ h. absurd (cc h), λ h. absurd (cc h.0)), transition_row_refused)
  transition_row_exact (some (uncounted msg)) =
      ((λ h. absurd (cc h), λ h. absurd (cc h.0)), transition_row_refused)
