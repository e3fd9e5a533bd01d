-- ===== src/Store/Adapter.antt =====
-- store/adapter.go: the interface that a storage backend implements, as a record of its methods over
-- the backend's own store, and the laws by which the session manager uses it.
-- A method takes the store and returns it beside its result. `time.Now()` is an argument.
use malipo.Base.{ℕ, String, ◌≡◌, ◌≢◌, ◌⊎◌, Bool, true, false, ◌||◌, Option, none, some, List, All}
use malipo.Base.{str_eq, if◌then◌else◌}
use malipo.Store.State.{State, confirmed, consumed, timeout, stk_pushed, awaiting_pin}
use malipo.Store.State.{is_terminal, state_eq}
use malipo.Store.Session.{Session, Update, Time}
use malipo.Store.Error.{Error, Result, ok, err}
use malipo.Store.Error.{not_found, session_exists, invalid_transition, already_consumed}

pub record StorageAdapter : Type 1 where
  pub Db : Type 0
  pub create : Session → Db → Result (Unit {0}) × Db
  pub get : String → Db → Result Session
  pub get_by_checkout_id : String → Db → Result Session
  pub transition : String → State → State → Option Update → Db → Result (Unit {0}) × Db
  pub consume_if_confirmed : Time → String → Db → Result Session × Db
  pub expire_stale : Time → Db → Result ℕ × Db
  pub list_pending : Time → Db → Result (List Session)

abbrev pub is_pending : State → Bool
is_pending s = state_eq s stk_pushed || state_eq s awaiting_pin

-- `after` differs from `before` in the state of `id` alone, which is now `t`.
abbrev pub SetsState : (String → Option State) → (String → Option State) → String → State → Type 0
SetsState before after id t = (j : String) → after j ≡ (if str_eq id j then some t else before j)

-- What the manager relies on, in terms of the state that the store holds under each session ID.
module _ (A : StorageAdapter) where
  open A use {
    Db, create, get, get_by_checkout_id, transition, consume_if_confirmed, expire_stale,
    list_pending,
  }

  pub record IsAdapter : Type 1 where
    pub IsValid : Db → Type 0
    pub state_of : Db → String → Option State
    pub create-IsValid : (s : Session) (db : Db) → IsValid db → IsValid (create s db).1
    pub transition-IsValid :
        (id : String) (from to : State) (u : Option Update) (db : Db)
        → IsValid db
        → IsValid (transition id from to u db).1
    pub consume-IsValid :
        (now : Time) (id : String) (db : Db)
        → IsValid db
        → IsValid (consume_if_confirmed now id db).1
    pub expire-IsValid : (t : Time) (db : Db) → IsValid db → IsValid (expire_stale t db).1
    pub get_absent : (id : String) (db : Db) → state_of db id ≡ none → get id db ≡ err not_found
    pub get_present :
        (id : String) (db : Db) {t : State}
        → IsValid db
        → state_of db id ≡ some t
        → (s : Session) × (get id db ≡ ok s) × (s.id ≡ id) × (s.state ≡ t)
    pub get_by_checkout_held :
        (c : String) (db : Db) {s : Session}
        → IsValid db
        → get_by_checkout_id c db ≡ ok s
        → state_of db s.id ≡ some s.state
    pub list_pending_held :
        (t : Time) (db : Db)
        → IsValid db
        → (l : List Session) × (list_pending t db ≡ ok l)
          × All (λ s. (state_of db s.id ≡ some s.state) × (is_pending s.state ≡ true)) l
    pub create_fresh :
        (s : Session) (db : Db)
        → state_of db s.id ≡ none
        → ((create s db).0 ≡ ok tt)
          × SetsState (state_of db) (state_of (create s db).1) s.id s.state
    pub create_taken :
        (s : Session) (db : Db) {t : State}
        → state_of db s.id ≡ some t
        → create s db ≡ (err session_exists, db)
    pub transition_met :
        (id : String) (from to : State) (u : Option Update) (db : Db)
        → is_terminal from ≡ false
        → state_of db id ≡ some from
        → ((transition id from to u db).0 ≡ ok tt)
          × SetsState (state_of db) (state_of (transition id from to u db).1) id to
    pub transition_unmet :
        (id : String) (from to : State) (u : Option Update) (db : Db)
        → is_terminal from ≡ false
        → state_of db id ≢ some from
        → (e : Error) × (transition id from to u db ≡ (err e, db))
    pub consume_confirmed :
        (now : Time) (id : String) (db : Db)
        → IsValid db
        → state_of db id ≡ some confirmed
        → (s : Session) × ((consume_if_confirmed now id db).0 ≡ ok s)
          × SetsState (state_of db) (state_of (consume_if_confirmed now id db).1) id consumed
    pub consume_spent :
        (now : Time) (id : String) (db : Db)
        → IsValid db
        → state_of db id ≡ some consumed
        → consume_if_confirmed now id db ≡ (err already_consumed, db)
    pub consume_absent :
        (now : Time) (id : String) (db : Db)
        → state_of db id ≡ none
        → consume_if_confirmed now id db ≡ (err not_found, db)
    pub consume_early :
        (now : Time) (id : String) (db : Db) {t : State}
        → IsValid db
        → state_of db id ≡ some t
        → t ≢ confirmed
        → t ≢ consumed
        → consume_if_confirmed now id db ≡ (err invalid_transition, db)
    -- An expiry sweep leaves a session's state, or times out one that is not terminal.
    pub expire_states :
        (t : Time) (db : Db) (id : String)
        → (state_of (expire_stale t db).1 id ≡ state_of db id)
          ⊎ ((s : State) × (state_of db id ≡ some s)
              × (is_terminal s ≡ false)
              × (state_of (expire_stale t db).1 id ≡ some timeout))
    -- A checkout ID leads to the session that a transition gave it, if it led to none before.
    pub create_unindexed :
        (c : String) (s : Session) (db : Db)
        → IsValid db
        → get_by_checkout_id c db ≡ err not_found
        → str_eq s.checkout_request_id c ≡ false
        → get_by_checkout_id c (create s db).1 ≡ err not_found
    pub transition_indexed :
        (id : String) (from to : State) (u : Update) (c : String) (db : Db)
        → IsValid db
        → is_terminal from ≡ false
        → state_of db id ≡ some from
        → u.checkout_request_id ≡ some c
        → get_by_checkout_id c db ≡ err not_found
        → (s : Session) × (get_by_checkout_id c (transition id from to (some u) db).1 ≡ ok s)
          × (s.id ≡ id)
          × (s.state ≡ to)
