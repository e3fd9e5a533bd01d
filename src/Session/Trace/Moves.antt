-- ===== src/Session/Trace/Moves.antt =====
-- What one atomic call can do to the state of a session, over any safe adapter.
use malipo.Base.{String, ◌≡◌, refl, ap, inl, inr, false, Option, none, some}
use malipo.Base.{Option-cases}
use malipo.Store.State.{State, created, confirmed, consumed, timeout, is_terminal}
use malipo.Store.Session.{Update, Time}
use malipo.Store.Error.{Result}
use malipo.Store.Adapter.{StorageAdapter}
use malipo.Store.Safety.{MaySet, IsSafeAdapter}
use malipo.Session.Machine.{Event, consumed_event, next_state}
use malipo.Session.Manager.{transition}
use malipo.Session.Manager.Transition.{next_state-live, transition_on_table, transition_off_table}
use malipo.Session.Trace.{Call, create, fire, consume, expire, perform}

-- What happens to the state of a session in one call: nothing, its creation, an event of the
-- transition table, or its expiry.
pub data Moves (o p : Option State) : Type 0 where
  stays : p ≡ o → Moves o p
  appears : o ≡ none → p ≡ some created → Moves o p
  fires : (s t : State) (e : Event) → o ≡ some s → p ≡ some t → next_state s e ≡ some t → Moves o p
  expires : (s : State) → o ≡ some s → is_terminal s ≡ false → p ≡ some timeout → Moves o p

-- A call that may set the state of one session, seen under any ID.
set-Moves :
    (before after : String → Option State) (id j : String) (o : Option State) (t : State)
    → MaySet before after id o t
    → Moves o (some t)
    → Moves (before j) (after j)
set-Moves before after id j o t may m = elim (may j) [
  | inl same ↦ stays same
  | inr (_, at, set) ↦ rw (at, set) m
]

consumed_on_table : next_state confirmed consumed_event ≡ some consumed
unfolding next_state
consumed_on_table = refl

module _ (A : StorageAdapter) (S : IsSafeAdapter A) where
  open S use {IsValid, state_of}

  pub fire-IsValid :
      (id : String) (from : State) (e : Event) (u : Option Update) (db : A.Db)
      → IsValid db
      → IsValid (transition A id from e u db).1
  fire-IsValid id from e u db v = elim (Option-cases (next_state from e)) [
    | inl off ↦ rw (transition_off_table A id from e u db off) v
    | inr (to, p) ↦
        rw (transition_on_table A id from e u db p) (S.transition-IsValid id from to u db v)
  ]

  pub perform-IsValid : (c : Call) (db : A.Db) → IsValid db → IsValid (perform A c db)
  unfolding perform
  perform-IsValid (create s) db v = S.create-IsValid _ db v
  perform-IsValid (fire id from e u) db v = fire-IsValid id from e u db v
  perform-IsValid (consume now id) db v = S.consume-IsValid now id db v
  perform-IsValid (expire t) db v = S.expire-IsValid t db v

  module _ (db : A.Db) (j : String) where
    fire-Moves :
        (id : String) (from : State) (e : Event) (u : Option Update)
        → Moves (state_of db j) (state_of (perform A (fire id from e u) db) j)
    unfolding perform
    fire-Moves id from e u = elim (Option-cases (next_state from e)) [
      | inl off ↦ stays (
          ap (λ (r : Result (Unit {0}) × A.Db). state_of r.1 j)
            (transition_off_table A id from e u db off))
      | inr (to, p) ↦
          rw (perform, transition_on_table A id from e u db p)
            (set-Moves (state_of db) _ id j (some from) to
              (S.transition_sets id from to u db (next_state-live from e p))
              (fires from to e refl refl p))
    ]

    expire-Moves : (t : Time) → Moves (state_of db j) (state_of (perform A (expire t) db) j)
    unfolding perform
    expire-Moves t = elim (S.expire_sets t db j) [
      | inl same ↦ stays same
      | inr (s, at, live, out) ↦ expires s at live out
    ]

  -- Over any adapter that is safe, on a valid store: one atomic call leaves the state of a session, or
  -- creates it, or moves it along the table, or times it out if it is not terminal.
  pub perform-Moves :
      (c : Call) (db : A.Db) (j : String)
      → IsValid db
      → Moves (state_of db j) (state_of (perform A c db) j)
  unfolding perform
  perform-Moves (create s) db j v =
      set-Moves (state_of db) _ s.id j none created
        (S.create_sets (record s { state = created }) db) (appears refl refl)
  perform-Moves (fire id from e u) db j v = fire-Moves db j id from e u
  perform-Moves (consume now id) db j v =
      set-Moves (state_of db) _ id j (some confirmed) consumed (S.consume_sets now id db v)
        (fires confirmed consumed consumed_event refl refl consumed_on_table)
  perform-Moves (expire t) db j v = expire-Moves db j t
