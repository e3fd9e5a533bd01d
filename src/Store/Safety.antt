-- ===== src/Store/Safety.antt =====
-- store/adapter.go: what is left of the laws of an adapter whose methods may fail, with or without having
-- written: a method writes what it should or nothing, and no success is reported that did not happen.
use malipo.Base.{String, ◌≡◌, sym, ◌⊎◌, ◌∙◌, ap, inl, inr, false, Option, none, some}
use malipo.Base.{str_eq, eq_iff, Bool-cases}
use malipo.Store.State.{State, confirmed, consumed, timeout, is_terminal}
use malipo.Store.Session.{Session, Update, Time}
use malipo.Store.Error.{ok}
use malipo.Store.Adapter.{StorageAdapter, SetsState}

-- `after` is `before`, or the state of `id`, which was `o`, is now `t`.
abbrev pub MaySet :
    (String → Option State) → (String → Option State) → String → Option State → State → Type 0
MaySet before after id o t =
    (j : String) → (after j ≡ before j) ⊎ ((id ≡ j) × (before j ≡ o) × (after j ≡ some t))

module _ (A : StorageAdapter) where
  open A use {Db, create, transition, consume_if_confirmed, expire_stale}

  pub record IsSafeAdapter : Type 1 where
    pub IsValid : Db → Type 0
    pub state_of : Db → String → Option State
    pub create-IsValid : (s : Session) (db : Db) → IsValid db → IsValid (create s db).1
    pub transition-IsValid :
        (id : String) (from to : State) (u : Option Update) (db : Db)
        → IsValid db
        → IsValid (transition id from to u db).1
    pub consume-IsValid :
        (now : Time) (id : String) (db : Db)
        → IsValid db
        → IsValid (consume_if_confirmed now id db).1
    pub expire-IsValid : (t : Time) (db : Db) → IsValid db → IsValid (expire_stale t db).1
    pub create_sets :
        (s : Session) (db : Db) → MaySet (state_of db) (state_of (create s db).1) s.id none s.state
    pub transition_sets :
        (id : String) (from to : State) (u : Option Update) (db : Db)
        → is_terminal from ≡ false
        → MaySet (state_of db) (state_of (transition id from to u db).1) id (some from) to
    pub consume_sets :
        (now : Time) (id : String) (db : Db)
        → IsValid db
        → MaySet
            (state_of db)
            (state_of (consume_if_confirmed now id db).1)
            id
            (some confirmed)
            consumed
    -- A session that is handed out was confirmed, and is consumed.
    pub consume_spends :
        (now : Time) (id : String) (db : Db) {s : Session}
        → IsValid db
        → (consume_if_confirmed now id db).0 ≡ ok s
        → (state_of db id ≡ some confirmed)
          × (state_of (consume_if_confirmed now id db).1 id ≡ some consumed)
    pub expire_sets :
        (t : Time) (db : Db) (id : String)
        → (state_of (expire_stale t db).1 id ≡ state_of db id)
          ⊎ ((s : State) × (state_of db id ≡ some s)
              × (is_terminal s ≡ false)
              × (state_of (expire_stale t db).1 id ≡ some timeout))

module _ (before after : String → Option State) (id : String) (o : Option State) (t : State) where
  pub SetsState-MaySet : before id ≡ o → SetsState before after id t → MaySet before after id o t
  SetsState-MaySet at moved j = elim (Bool-cases (str_eq id j)) [
    | inl same ↦ let e = (eq_iff id j).0 same in inr (e, ap before (sym e) ∙ at, moved j ∙ rw same)
    | inr other ↦ inl (moved j ∙ rw other)
  ]

  pub unwritten : after ≡ before → MaySet before after id o t
  unwritten same j = inl (ap (λ σ. σ j) same)
