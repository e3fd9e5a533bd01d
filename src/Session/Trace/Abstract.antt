-- ===== src/Session/Trace/Abstract.antt =====
-- What the atomic calls do to the states of the sessions, without a store: the abstract machine that the
-- adapters implement. An expiry sweep, whose clock is the adapter's, is left out.
use mathlib.Core.Path.{fun_ext}
use malipo.Base.{
  String, ◌≡◌, ◌≢◌, refl, ◌∙◌, ap, inl, inr, Bool, true, false, not, ◌&&◌, Option, none, some, List,
  [], ◌∷◌, arith,
}
use malipo.Base.{str_eq, if◌then◌else◌, is_some, Option-cases}
use malipo.Store.State.{State, State-discrete, created, confirmed, consumed, state_eq, state_eq_iff}
use malipo.Store.Session.{Session, Time, Update}
use malipo.Store.Error.{Error, err}
use malipo.Store.Adapter.{StorageAdapter, IsAdapter}
use malipo.Session.Machine.{Event, next_state}
use malipo.Session.Manager.{transition}
use malipo.Session.Manager.Transition.{
  state_is, transition_off_table, transition_fires, transition_unmet,
}
use malipo.Session.Trace.Safe.{safe}
use malipo.Session.Trace.Moves.{perform-IsValid}
use malipo.Session.Trace.{Call, create, fire, consume, expire, perform, run, is_ok}

-- The states of the sessions under their IDs.
abbrev pub States : Type 0
States = String → Option State

abbrev pub holds : Option State → State → Bool
holds none t = false
holds (some s) t = state_eq s t

-- The session that a call moves and its new state, if the call is granted.
unfoldable pub grant : Call → States → Option (String × State)
grant (create s) σ = if is_some (σ s.id) then none else some (s.id, created)
grant (fire id from e u) σ = elim (next_state from e) [
  | none ↦ none
  | some to ↦ if holds (σ id) from then some (id, to) else none
]
grant (consume now id) σ = if holds (σ id) confirmed then some (id, consumed) else none
grant (expire t) σ = none

abbrev pub write : Option (String × State) → States → States
write none σ = σ
write (some (id, t)) σ = λ j. if str_eq id j then some t else σ j

abbrev pub is_sweep : Call → Bool
is_sweep (expire t) = true
is_sweep _ = false

held : {o : Option State} {t : State} → o ≡ some t → holds o t ≡ true
held {t = t} h = rw h ((state_eq_iff t t).1 refl)

unheld : (o : Option State) (t : State) → o ≢ some t → holds o t ≡ false
unheld none t away = refl
unheld (some s) t away = ground (arith, state_eq_iff s t)

module _ (A : StorageAdapter) where
  -- Whether the adapter grants a call.
  unfoldable pub granted : Call → A.Db → Bool
  granted (create s) db = is_ok (A.create (record s { state = created }) db).0
  granted (fire id from e u) db = is_ok (transition A id from e u db).0
  granted (consume now id) db = is_ok (A.consume_if_confirmed now id db).0
  granted (expire t) db = is_ok (A.expire_stale t db).0

module _ (A : StorageAdapter) (L : IsAdapter A) where
  open L use {IsValid, state_of}

  -- The adapter follows the abstract machine in a call.
  abbrev pub Follows : Call → A.Db → Type 0
  Follows c db =
      (granted A c db ≡ is_some (grant c (state_of db)))
      × ((j : String) → state_of (perform A c db) j ≡ write (grant c (state_of db)) (state_of db) j)

  create-Follows : (s : Session) (db : A.Db) → Follows (create s) db
  unfolding granted grant perform
  create-Follows s db =
      let s' : Session = record s { state = created } in
      elim (Option-cases (state_of db s.id)) [
        | inl fresh ↦
            let (done, moved) = L.create_fresh s' db fresh in
            (rw (granted, grant, done, fresh), λ j. rw (grant, fresh) (moved j))
        | inr (t, taken) ↦
            let refused = L.create_taken s' db taken in
            (rw (granted, grant, refused, taken), λ j. rw (perform, grant, refused, taken))
      ]

  fire-Follows :
      (id : String) (from : State) (e : Event) (u : Option Update) (db : A.Db)
      → Follows (fire id from e u) db
  unfolding granted grant perform
  fire-Follows id from e u db = elim (Option-cases (next_state from e)) [
    | inl off ↦
        let refused = transition_off_table A id from e u db off in
        (rw (granted, refused, grant, off), λ j. rw (perform, refused, grant, off))
    | inr (to, p) ↦ elim (state_is (state_of db id) from) [
      | inl at ↦
          let (done, moved) = transition_fires A L id from e u db p at in
          (rw (granted, done, grant, p, held at), λ j. rw (grant, p, held at) (moved j))
      | inr away ↦
          let (x, refused) = transition_unmet A L id from e u db away in
          let off = unheld (state_of db id) from away in
          (rw (granted, refused, grant, p, off), λ j. rw (perform, refused, grant, p, off))
    ]
  ]

  refused_consume :
      (now : Time) (id : String) (db : A.Db) {x : Error}
      → A.consume_if_confirmed now id db ≡ (err x, db)
      → state_of db id ≢ some confirmed
      → Follows (consume now id) db
  unfolding granted grant perform
  refused_consume now id db refused away =
      let off = unheld (state_of db id) confirmed away in
      (rw (granted, refused, grant, off), λ j. rw (perform, refused, grant, off))

  consume-Follows :
      (now : Time) (id : String) (db : A.Db) → IsValid db → Follows (consume now id) db
  unfolding granted grant perform
  consume-Follows now id db v = elim (Option-cases (state_of db id)) [
    | inl absent ↦
        refused_consume now id db (L.consume_absent now id db absent) (λ h. cc (absent, h))
    | inr (t, at) ↦ elim (State-discrete t confirmed) [
      | yes ready ↦
          let met = at ∙ ap some ready in
          let (s, done, moved) = L.consume_confirmed now id db v met in
          (rw (granted, done, grant, held met), λ j. rw (grant, held met) (moved j))
      | no early ↦ elim (State-discrete t consumed) [
        | yes over ↦
            refused_consume now id db (L.consume_spent now id db v (at ∙ ap some over))
              (λ h. early (cc (at, h)))
        | no other ↦
            refused_consume now id db (L.consume_early now id db v at early other)
              (λ h. early (cc (at, h)))
      ]
    ]
  ]

  -- Over any adapter that keeps its laws, from a valid store: an atomic call that is no expiry sweep is
  -- granted exactly if the abstract machine grants it, and moves the states of the sessions as it says.
  call-Follows : (c : Call) (db : A.Db) → is_sweep c ≡ false → IsValid db → Follows c db
  call-Follows (create s) db h v = create-Follows s db
  call-Follows (fire id from e u) db h v = fire-Follows id from e u db
  call-Follows (consume now id) db h v = consume-Follows now id db v
  call-Follows (expire t) db h v = absurd (cc h)

-- A run of the abstract machine: what it answers, and the states that it leaves.
unfoldable pub abstract_run : List Call → States → List Bool × States
abstract_run [] σ = ([], σ)
abstract_run (c ∷ calls) σ =
    let (answers, σ') = abstract_run calls (write (grant c σ) σ) in
    (is_some (grant c σ) ∷ answers, σ')

unfoldable pub no_sweeps : List Call → Bool
no_sweeps [] = true
no_sweeps (c ∷ calls) = not (is_sweep c) && no_sweeps calls

-- Which calls of a run the adapter grants.
unfoldable pub answers : (A : StorageAdapter) → List Call → A.Db → List Bool
answers A [] db = []
answers A (c ∷ calls) db = granted A c db ∷ answers A calls (perform A c db)

module _ (A : StorageAdapter) (L : IsAdapter A) where
  open L use {IsValid, state_of}

  -- Over any adapter that keeps its laws, from a valid store: a run of atomic calls without an expiry
  -- sweep grants the calls that the abstract machine grants from the states in the store, and leaves the
  -- states that it leaves.
  pub run-abstract :
      (calls : List Call) (db : A.Db)
      → no_sweeps calls ≡ true
      → IsValid db
      → (answers A calls db ≡ (abstract_run calls (state_of db)).0)
        × (state_of (run A calls db) ≡ (abstract_run calls (state_of db)).1)
  unfolding run perform abstract_run answers no_sweeps
  run-abstract [] db h v = (refl, refl)
  run-abstract (c ∷ calls) db h v =
      let (grants, moves) = call-Follows A L c db (ground arith) v in
      let (same, end) =
        run-abstract calls (perform A c db) (ground arith) (perform-IsValid A (safe A L) c db v) in
      let step : state_of (perform A c db) ≡ write (grant c (state_of db)) (state_of db) =
        fun_ext moves in
      (rw (grants, same, step), end ∙ rw step)
