-- ===== src/Session/Manager/Transition.antt =====
-- `Manager.transition` over any adapter that keeps its laws: the table decides, then the store.
use malipo.Base.{String, ◌≡◌, ◌≢◌, ap, ◌∙◌, ◌⊎◌, inl, inr, false, Option, none, some, arith}
use malipo.Base.{Option-cases}
use malipo.Store.State.{State, State-discrete, confirmed, consumed, is_terminal}
use malipo.Store.Session.{Session, Update, Time}
use malipo.Store.Error.{Error, ok, err, not_found, already_consumed, invalid_transition}
use malipo.Store.Adapter.{StorageAdapter, IsAdapter, SetsState}
use malipo.Session.Machine.{Event, next_state}
use malipo.Session.Manager.{transition}

-- Whether the store holds a session in a given state.
pub state_is : (o : Option State) (s : State) → (o ≡ some s) ⊎ (o ≢ some s)
state_is none s = inr (λ h. cc)
state_is (some t) s = elim (State-discrete t s) [
  | yes same ↦ inl (ap some same)
  | no other ↦ inr (λ h. other (cc))
]

-- A state with an event in the table is not terminal.
pub next_state-live :
    (s : State) (e : Event) {t : State} → next_state s e ≡ some t → is_terminal s ≡ false
unfolding next_state is_terminal
next_state-live s e h = ground arith

module _ (A : StorageAdapter) (id : String) (from : State) (e : Event) (u : Option Update)
    (db : A.Db) where
  -- What the table holds goes to the store, and what it does not hold is refused before it.
  pub transition_on_table :
      {to : State}
      → next_state from e ≡ some to
      → transition A id from e u db ≡ A.transition id from to u db
  unfolding transition
  transition_on_table h = rw (h, transition)

  pub transition_off_table :
      next_state from e ≡ none → transition A id from e u db ≡ (err invalid_transition, db)
  unfolding transition
  transition_off_table h = rw (h, transition)

module _ (A : StorageAdapter) (L : IsAdapter A) (id : String) (from : State) (e : Event)
    (u : Option Update) (db : A.Db) where
  open L use {IsValid, state_of}

  pub transition-IsValid : IsValid db → IsValid (transition A id from e u db).1
  transition-IsValid v = elim (Option-cases (next_state from e)) [
    | inl off ↦ rw (transition_off_table A id from e u db off) v
    | inr (to, p) ↦
        rw (transition_on_table A id from e u db p) (L.transition-IsValid id from to u db v)
  ]

  -- A transition that the table holds and that finds the session in its from-state goes through, and
  -- writes the state of that session alone.
  pub transition_fires :
      {to : State}
      → next_state from e ≡ some to
      → state_of db id ≡ some from
      → ((transition A id from e u db).0 ≡ ok tt)
        × SetsState (state_of db) (state_of (transition A id from e u db).1) id to
  transition_fires {to} h at =
      rw (transition_on_table A id from e u db h)
        (L.transition_met id from to u db (next_state-live from e h) at)

  pub transition_unmet :
      state_of db id ≢ some from → (x : Error) × (transition A id from e u db ≡ (err x, db))
  transition_unmet away = elim (Option-cases (next_state from e)) [
    | inl off ↦ (invalid_transition, transition_off_table A id from e u db off)
    | inr (to, p) ↦
        let (x, refused) = L.transition_unmet id from to u db (next_state-live from e p) away in
        (x, transition_on_table A id from e u db p ∙ refused)
  ]

  -- Either the table and the store agree to it, or nothing is written.
  pub transition_cases :
      ((x : Error) × (transition A id from e u db ≡ (err x, db)))
      ⊎ ((to : State) × (next_state from e ≡ some to)
          × (state_of db id ≡ some from)
          × ((transition A id from e u db).0 ≡ ok tt)
          × SetsState (state_of db) (state_of (transition A id from e u db).1) id to)
  transition_cases = elim (Option-cases (next_state from e)) [
    | inl off ↦ inl (invalid_transition, transition_off_table A id from e u db off)
    | inr (to, p) ↦ elim (state_is (state_of db id) from) [
      | inl at ↦ let (done, moved) = transition_fires p at in inr (to, p, at, done, moved)
      | inr away ↦ inl (transition_unmet away)
    ]
  ]

module _ (A : StorageAdapter) (L : IsAdapter A) (now : Time) (id : String) (db : A.Db) where
  open L use {IsValid, state_of}

  -- A consumption finds the session confirmed and consumes it, or writes nothing.
  pub consume_cases :
      IsValid db
      → ((x : Error) × (A.consume_if_confirmed now id db ≡ (err x, db)))
        ⊎ ((state_of db id ≡ some confirmed)
            × ((s : Session) × ((A.consume_if_confirmed now id db).0 ≡ ok s))
            × SetsState (state_of db) (state_of (A.consume_if_confirmed now id db).1) id consumed)
  consume_cases v = elim (Option-cases (state_of db id)) [
    | inl absent ↦ inl (not_found, L.consume_absent now id db absent)
    | inr (t, at) ↦ elim (State-discrete t confirmed) [
      | yes ready ↦
          let at' = at ∙ ap some ready in
          let (s, done, moved) = L.consume_confirmed now id db v at' in inr (at', (s, done), moved)
      | no unready ↦ elim (State-discrete t consumed) [
        | yes spent ↦ inl (already_consumed, L.consume_spent now id db v (at ∙ ap some spent))
        | no early ↦ inl (invalid_transition, L.consume_early now id db v at unready early)
      ]
    ]
  ]
