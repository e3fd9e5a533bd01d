-- ===== src/Store/Expiry.antt =====
-- store/adapter.go: what an adapter keeps of the expiry of a session, and the sweep that goes by it.
use malipo.Base.{String, ◌≡◌, true, Option, some}
use malipo.Base.Int.{ltb_ℤ}
use malipo.Store.State.{State, is_terminal}
use malipo.Store.Session.{Session, Update, Time}
use malipo.Store.Error.{ok}
use malipo.Store.Adapter.{StorageAdapter}

-- An adapter that holds instants to the precision of `floor`, with the states that it holds.
pub record IsResolving (A : StorageAdapter) (state_of : A.Db → String → Option State) : Type 1 where
  pub floor : Time → Time
  -- A session is stored under an ID with a given expiry.
  pub HasExpiry : String → Time → A.Db → Type 0
  pub create_has :
      (s : Session) (db : A.Db)
      → (A.create s db).0 ≡ ok tt
      → HasExpiry s.id s.expires_at (A.create s db).1
  pub create-HasExpiry :
      (s : Session) {k : String} {x : Time} (db : A.Db)
      → HasExpiry k x db
      → HasExpiry k x (A.create s db).1
  pub transition-HasExpiry :
      (id : String) (from to : State) (u : Option Update) {k : String} {x : Time} (db : A.Db)
      → HasExpiry k x db
      → HasExpiry k x (A.transition id from to u db).1
  pub consume-HasExpiry :
      (now : Time) (id : String) {k : String} {x : Time} (db : A.Db)
      → HasExpiry k x db
      → HasExpiry k x (A.consume_if_confirmed now id db).1
  pub expire-HasExpiry :
      (t : Time) {k : String} {x : Time} (db : A.Db)
      → HasExpiry k x db
      → HasExpiry k x (A.expire_stale t db).1
  -- A sweep after the expiry leaves a terminal session.
  pub expire_resolves :
      (t : Time) {k : String} {x : Time} (db : A.Db)
      → HasExpiry k x db
      → ltb_ℤ (floor x) (floor t) ≡ true
      → (s : State) × (state_of (A.expire_stale t db).1 k ≡ some s) × (is_terminal s ≡ true)
