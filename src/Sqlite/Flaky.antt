-- ===== src/Sqlite/Flaky.antt =====
-- store/sqlite/sqlite.go: `SQLiteAdapter` over a driver that may fail in any call: it loses no safety.
use malipo.Base.{
  ℕ, ◌+◌, String, ◌≡◌, refl, ◌∙◌, ap, ◌⊎◌, inl, inr, false, Option, none, some, [], arith,
}
use malipo.Base.{Option-cases, eq_refl}
use malipo.Base.Map.{lookup, lookup-insert}
use malipo.Store.State.{State, confirmed, consumed, is_terminal, timeout}
use malipo.Store.Session.{Session, Update, Time}
use malipo.Store.Error.{Result, ok}
use malipo.Store.Adapter.{StorageAdapter}
use malipo.Store.Safety.{MaySet, IsSafeAdapter}
use malipo.Sqlite.Clock.{TimeText}
use malipo.Sqlite.Driver.{Fault, refused, lost, uncounted, ReadFault, ListFault}
use malipo.Sqlite.Defs.{
  spent_row, Table, create, get, get_by_checkout_id, transition, consume_between,
  consume_if_confirmed, expire_stale,
}
use malipo.Sqlite.Listing.{list_pending}
use malipo.Sqlite.Invariant.{IsValid, empty-IsValid}
use malipo.Sqlite.Keeps.{create-IsValid, transition-IsValid, consume-IsValid, expire-IsValid}
use malipo.Sqlite.Reads.{row_state}
use malipo.Sqlite.Writes.{expire_states}
use malipo.Sqlite.Between.{between_met, between_unmet}
use malipo.Sqlite.Contract.{sqlite_adapter, sqlite_laws}
use malipo.Session.Manager.Transition.{state_is}
use malipo.Session.Trace.Safe.{create_sets, transition_sets, consume_sets}

-- When the driver fails, by the number of the writing calls that came before, and for a query also by
-- its key. The query by which `ConsumeIfConfirmed` reads a session back, which is one of `Get`'s, fails by
-- itself.
pub record Driver : Type 0 where
  pub writes : ℕ → Option Fault
  pub reads : ℕ → String → Option ReadFault
  pub read_backs : ℕ → String → Option ReadFault
  pub lists : ℕ → Option ListFault

pub record Connection (T : TimeText) : Type 0 where
  pub table : Table T
  pub count : ℕ

module _ (T : TimeText) where
  -- What a writing call leaves, with the call counted.
  abbrev pub counted {ℓ} : {X : Type ℓ} → ℕ → X × Table T → X × Connection T
  counted n (x, t) = (x, record { table = t; count = n + 1 })

  abbrev pub flaky_adapter : Driver → StorageAdapter
  flaky_adapter D = record {
    Db = Connection T;
    create = λ s c. counted c.count (create T (D.writes c.count) s c.table);
    get = λ id c. get T (D.reads c.count id) id c.table;
    get_by_checkout_id = λ k c. get_by_checkout_id T (D.reads c.count k) k c.table;
    transition =
        λ id from to u c. counted c.count (transition T (D.writes c.count) id from to u c.table);
    consume_if_confirmed = λ now id c.
        counted c.count
          (consume_if_confirmed T now (D.writes c.count) (D.read_backs c.count id) id c.table);
    expire_stale = λ t c. counted c.count (expire_stale T (D.writes c.count) t c.table);
    list_pending = λ t c. list_pending T (D.lists c.count) t c.table;
  }

  -- A statement leaves the table as it was or as the same statement leaves it under a sound driver.
  pub create_either :
      (io : Option Fault) (s : Session) (t : Table T)
      → ((create T io s t).1 ≡ t) ⊎ ((create T io s t).1 ≡ (create T none s t).1)
  unfolding create
  create_either none s t = inr refl
  create_either (some (refused msg)) s t = inl refl
  create_either (some (lost msg)) s t = inr refl
  create_either (some (uncounted msg)) s t = inr refl

  pub transition_either :
      (io : Option Fault) (id : String) (from to : State) (u : Option Update) (t : Table T)
      → ((transition T io id from to u t).1 ≡ t)
        ⊎ ((transition T io id from to u t).1 ≡ (transition T none id from to u t).1)
  unfolding transition
  transition_either none id from to u t = inr refl
  transition_either (some (refused msg)) id from to u t = inl refl
  transition_either (some (lost msg)) id from to u t = inr refl
  transition_either (some (uncounted msg)) id from to u t = inr refl

  pub consume_either :
      (now : Time) (io : Option Fault) (io' : Option ReadFault) (id : String) (t : Table T)
      → ((consume_if_confirmed T now io io' id t).1 ≡ t)
        ⊎ ((consume_if_confirmed T now io io' id t).1
            ≡ (consume_if_confirmed T now none none id t).1)
  unfolding consume_between
  consume_either now none io' id t = inr refl
  consume_either now (some (refused msg)) io' id t = inl refl
  consume_either now (some (lost msg)) io' id t = inr refl
  consume_either now (some (uncounted msg)) io' id t = inr refl

  pub expire_either :
      (io : Option Fault) (before : Time) (t : Table T)
      → ((expire_stale T io before t).1 ≡ t)
        ⊎ ((expire_stale T io before t).1 ≡ (expire_stale T none before t).1)
  unfolding expire_stale
  expire_either none before t = inr refl
  expire_either (some (refused msg)) before t = inl refl
  expire_either (some (lost msg)) before t = inr refl
  expire_either (some (uncounted msg)) before t = inr refl

  -- What holds of both holds of the table that is left.
  pub either_way {κ} :
      (P : Table T → Type κ) {t t' out : Table T} → (out ≡ t) ⊎ (out ≡ t') → P t → P t' → P out
  either_way P (inl e) p q = rw e p
  either_way P (inr e) p q = rw e q

  -- A session is handed out only by a sound statement that found it confirmed.
  sound_out :
      (now : Time) (io : Option ReadFault) (id : String) (t : Table T) {s : Session}
      → (consume_if_confirmed T now none io id t).0 ≡ ok s
      → (row_state T t id ≡ some confirmed)
        × (row_state T (consume_if_confirmed T now none io id t).1 id ≡ some consumed)
  sound_out now io id t h = elim (state_is (row_state T t id) confirmed) [
    | inr away ↦
        let (e, fails) = between_unmet T now id (λ t'. t') t io away in
        absurd (ground (arith, h, ap (λ (r : Result Session × Table T). r.0) fails))
    | inl at ↦ elim (Option-cases (lookup id t)) [
      | inl absent ↦ absurd (ground arith)
      | inr (row, p) ↦
          let met = between_met T now id (λ t'. t') t io row p (ground arith) in
          (
            at,
            ap (λ (r : Result Session × Table T). row_state T r.1 id) met
                ∙ rw (lookup-insert id id (spent_row T now row) t, eq_refl id),
          )
    ]
  ]

  pub handed_out :
      (now : Time) (io : Option Fault) (io' : Option ReadFault) (id : String) (t : Table T)
      {s : Session}
      → (consume_if_confirmed T now io io' id t).0 ≡ ok s
      → (row_state T t id ≡ some confirmed)
        × (row_state T (consume_if_confirmed T now io io' id t).1 id ≡ some consumed)
  unfolding consume_between
  handed_out now (some (refused msg)) io' id t h = absurd (cc h)
  handed_out now (some (lost msg)) io' id t h = absurd (cc h)
  handed_out now (some (uncounted msg)) io' id t h = absurd (cc h)
  handed_out now none io' id t h = sound_out now io' id t h

  abbrev pub TableSets : Table T → String → Option State → State → Table T → Type 0
  TableSets t id o to t' = MaySet (row_state T t) (row_state T t') id o to

  -- The expiry pass, whether it was carried out or not.
  pub flaky_expiry :
      (io : Option Fault) (before : Time) (t : Table T) (id : String)
      → (row_state T (expire_stale T io before t).1 id ≡ row_state T t id)
        ⊎ ((s : State) × (row_state T t id ≡ some s)
            × (is_terminal s ≡ false)
            × (row_state T (expire_stale T io before t).1 id ≡ some timeout))
  flaky_expiry io before t id =
      either_way
        (λ t'.
          (row_state T t' id ≡ row_state T t id)
          ⊎ ((s : State) × (row_state T t id ≡ some s)
              × (is_terminal s ≡ false)
              × (row_state T t' id ≡ some timeout)))
        (expire_either io before t) (inl refl) (expire_states T before t id)

-- `SQLiteAdapter` over any driver.
unfoldable pub flaky_laws : (T : TimeText) (D : Driver) → IsSafeAdapter (flaky_adapter T D)
unfolding sqlite_laws
flaky_laws T D = record {
  IsValid = λ c. IsValid T c.table;
  state_of = λ c. row_state T c.table;
  create-IsValid = λ s c v.
      either_way T (IsValid T) (create_either T (D.writes c.count) s c.table) v
        (create-IsValid T s c.table v);
  transition-IsValid = λ id from to u c v.
      either_way T (IsValid T) (transition_either T (D.writes c.count) id from to u c.table) v
        (transition-IsValid T id from to u c.table v);
  consume-IsValid = λ now id c v.
      either_way T (IsValid T)
        (consume_either T now (D.writes c.count) (D.read_backs c.count id) id c.table) v
        (consume-IsValid T now id c.table v);
  expire-IsValid = λ before c v.
      either_way T (IsValid T) (expire_either T (D.writes c.count) before c.table) v
        (expire-IsValid T before c.table v);
  create_sets = λ s c.
      either_way T (TableSets T c.table s.id none s.state)
        (create_either T (D.writes c.count) s c.table) (λ j. inl refl)
        (create_sets (sqlite_adapter T) (sqlite_laws T) s c.table);
  transition_sets = λ id from to u c live.
      either_way T (TableSets T c.table id (some from) to)
        (transition_either T (D.writes c.count) id from to u c.table) (λ j. inl refl)
        (transition_sets (sqlite_adapter T) (sqlite_laws T) id from to u c.table live);
  consume_sets = λ now id c v.
      either_way T (TableSets T c.table id (some confirmed) consumed)
        (consume_either T now (D.writes c.count) (D.read_backs c.count id) id c.table)
        (λ j. inl refl) (consume_sets (sqlite_adapter T) (sqlite_laws T) now id c.table v);
  consume_spends = λ now id c v done.
      handed_out T now (D.writes c.count) (D.read_backs c.count id) id c.table done;
  expire_sets = λ before c id. flaky_expiry T (D.writes c.count) before c.table id;
}

-- `SQLiteAdapter` is safe over any driver, whichever of its calls fail and whether or not a statement that
-- is reported as failed was carried out: for the states of the rows of its table, and an invariant that the
-- empty table has.
pub flaky_adapter-IsSafeAdapter :
    (T : TimeText) (D : Driver)
    → (S : IsSafeAdapter (flaky_adapter T D)) × ((n : ℕ)
        → S.IsValid (record { table = []; count = n }))
      × ((c : Connection T) (id : String) → S.state_of c id ≡ row_state T c.table id)
unfolding flaky_laws
flaky_adapter-IsSafeAdapter T D = (flaky_laws T D, λ n. empty-IsValid T, λ c id. refl)
