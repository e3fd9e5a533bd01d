-- ===== src/Sqlite/Contract.antt =====
-- store/sqlite/sqlite.go: `SQLiteAdapter` as a `store.StorageAdapter`, with the laws of store/adapter.go,
-- for a driver that does not fail.
use mathlib.Core.Option
use malipo.Base.{String, ◌≡◌, refl, inl, inr, none, some, [], arith}
use malipo.Base.{Option-cases}
use malipo.Base.Map.{lookup}
use malipo.Store.State.{State}
use malipo.Store.Session.{Session, Update}
use malipo.Store.Error.{ok, err, not_found}
use malipo.Store.Adapter.{StorageAdapter, IsAdapter}
use malipo.Sqlite.Clock.{TimeText}
use malipo.Sqlite.Defs.{
  Table, create, get, get_by_checkout_id, transition, consume_if_confirmed, expire_stale,
}
use malipo.Sqlite.Listing.{list_pending}
use malipo.Sqlite.Invariant.{IsValid, empty-IsValid}
use malipo.Sqlite.Index.{create_unindexed, transition_indexed}
use malipo.Sqlite.Keeps.{create-IsValid, transition-IsValid, consume-IsValid, expire-IsValid}
use malipo.Sqlite.Reads.{
  row_state, get_absent, get_present, get_by_checkout_held, list_pending_held,
}
use malipo.Sqlite.Writes.{
  create_fresh, create_taken, transition_met, transition_unmet, consume_confirmed, consume_spent,
  consume_absent, consume_early, expire_states,
}

module _ (T : TimeText) where
  abbrev pub sqlite_adapter : StorageAdapter
  sqlite_adapter = record {
    Db = Table T;
    create = create T none;
    get = get T none;
    get_by_checkout_id = get_by_checkout_id T none;
    transition = transition T none;
    consume_if_confirmed = λ now id t. consume_if_confirmed T now none none id t;
    expire_stale = expire_stale T none;
    list_pending = list_pending T none;
  }

module _ (T : TimeText) where
  pub row_indexed :
      (id : String) (from to : State) (u : Update) (c : String) (t : Table T)
      → IsValid T t
      → row_state T t id ≡ some from
      → u.checkout_request_id ≡ some c
      → get_by_checkout_id T none c t ≡ err not_found
      → (s : Session) × (get_by_checkout_id T none c (transition T none id from to (some u) t).1
          ≡ ok s)
        × (s.id ≡ id)
        × (s.state ≡ to)
  row_indexed id from to u c t v at set h = elim (Option-cases (lookup id t)) [
    | inl absent ↦ absurd (ground arith)
    | inr (row, p) ↦ transition_indexed T id from to u c t v p (ground arith) set h
  ]

-- The laws as the manager's theorems take them.
unfoldable pub sqlite_laws : (T : TimeText) → IsAdapter (sqlite_adapter T)
sqlite_laws T = record {
  IsValid = IsValid T;
  state_of = row_state T;
  create-IsValid = create-IsValid T;
  transition-IsValid = transition-IsValid T;
  consume-IsValid = consume-IsValid T;
  expire-IsValid = expire-IsValid T;
  get_absent = get_absent T;
  get_present = get_present T;
  get_by_checkout_held = get_by_checkout_held T;
  list_pending_held = list_pending_held T;
  create_fresh = create_fresh T;
  create_taken = create_taken T;
  transition_met = transition_met T;
  transition_unmet = transition_unmet T;
  consume_confirmed = consume_confirmed T;
  consume_spent = consume_spent T;
  consume_absent = consume_absent T;
  consume_early = consume_early T;
  expire_states = expire_states T;
  create_unindexed = create_unindexed T;
  transition_indexed =
      λ id from to u c t v live at set h. row_indexed T id from to u c t v at set h;
}

-- With a driver that does not fail, `SQLiteAdapter` keeps the laws that the manager relies on, for the
-- states of the rows of its table and an invariant that the empty table has.
pub sqlite_adapter-IsAdapter :
    (T : TimeText)
    → (L : IsAdapter (sqlite_adapter T)) × (L.IsValid [])
      × ((t : Table T) (id : String)
          → L.state_of t id ≡ Option.map (λ row. row.state) (lookup id t))
unfolding sqlite_laws
sqlite_adapter-IsAdapter T = (sqlite_laws T, empty-IsValid T, λ t id. refl)
