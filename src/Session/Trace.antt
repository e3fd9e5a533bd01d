-- ===== src/Session/Trace.antt =====
-- The program as interleavings: every write of the store that session/manager.go makes is one of four
-- atomic calls, and any number of goroutines make them in any order.
pub mod Safe
pub mod Moves
pub mod Release
pub mod Runs
pub mod Methods
pub mod Expiry
pub mod Abstract
use malipo.Base.{
  ℕ, suc, String, ◌≡◌, ◌⊎◌, inl, inr, Bool, true, false, ◌&&◌, ◌||◌, Option, none, some, List, [],
  ◌∷◌, arith,
}
use malipo.Base.{if◌then◌else◌, str_eq, eq_iff, eq_refl, Option-cases, Bool-cases}
use malipo.Store.State.{State, created, confirmed, consumed, timeout, is_terminal}
use malipo.Store.Session.{Session, Update, Time}
use malipo.Store.Error.{Result, ok, err}
use malipo.Store.Adapter.{StorageAdapter, IsAdapter}
use malipo.Session.Machine.{Event, callback_success, next_state}
use malipo.Session.Manager.{transition}

-- `fire` is `Manager.transition`; `create` stores a record in the state CREATED, as the only caller of
-- `StorageAdapter.Create` does.
pub data Call : Type 0 where
  create : Session → Call
  fire : String → State → Event → Option Update → Call
  consume : Time → String → Call
  expire : Time → Call

abbrev pub is_ok {ℓ} : {R : Type ℓ} → Result R → Bool
is_ok (ok _) = true
is_ok (err _) = false

module _ (A : StorageAdapter) where
  unfoldable pub perform : Call → A.Db → A.Db
  perform (create s) db = (A.create (record s { state = created }) db).1
  perform (fire id from e u) db = (transition A id from e u db).1
  perform (consume now id) db = (A.consume_if_confirmed now id db).1
  perform (expire t) db = (A.expire_stale t db).1

  unfoldable pub run : List Call → A.Db → A.Db
  unfolding perform
  run [] db = db
  run (c ∷ calls) db = run calls (perform c db)

  -- Whether a call is a consumption of `id` that succeeds.
  abbrev pub releases : String → Call → A.Db → Bool
  releases id (consume now j) db = str_eq j id && is_ok (A.consume_if_confirmed now j db).0
  releases id _ db = false

  -- How many consumptions of `id` succeed in a run.
  unfoldable pub releases_in : String → List Call → A.Db → ℕ
  unfolding perform
  releases_in id [] db = 0
  releases_in id (c ∷ calls) db =
      let rest = releases_in id calls (perform c db) in if releases id c db then suc rest else rest

-- Whether a call reports the success of the session `id`.
abbrev pub confirms : String → Call → Bool
confirms id (fire j from callback_success u) = str_eq j id
confirms id _ = false

abbrev pub any_confirms : String → List Call → Bool
any_confirms id [] = false
any_confirms id (c ∷ calls) = confirms id c || any_confirms id calls
