-- ===== src/Memory/Guards.antt =====
-- What the methods of `MemoryAdapter` return and write, on every branch.
use malipo.Base.{String, ◌≡◌, ap, ◌≢◌, ◌↔◌, ◌⊎◌, inl, inr, true, false, Option, none, some, arith}
use malipo.Base.{str_eq, if◌then◌else◌, Option-cases, Bool-cases, subst}
use malipo.Base.Map.{lookup, insert, lookup-insert}
use malipo.Store.State.{State, confirmed, consumed, is_terminal, state_eq, state_eq_iff}
use malipo.Store.Session.{Session, Update, Time}
use malipo.Store.Error.{Error, ok, err}
use malipo.Store.Error.{not_found, session_exists, invalid_transition, already_consumed}
use malipo.Memory.Defs.{
  Memory, create, write_update, apply_transition, transition, consume_if_confirmed,
}
use malipo.Memory.Written.{
  given, IsWritten, IsIndexed, write_update-IsWritten, write_update-IsIndexed,
}

module _ (id : String) (from to : State) (u : Option Update) (m : Memory) where
  -- `Transition` of the in-memory adapter succeeds exactly when the session is there, in the state
  -- `from`, and `from` is not terminal.
  transition_ok_iff : ((transition id from to u m).0 ≡ ok tt) ↔ (
      (is_terminal from ≡ false)
      × ((s : Session) × (lookup id m.sessions ≡ some s) × (s.state ≡ from)))
  unfolding transition
  transition_ok_iff = elim (Option-cases (lookup id m.sessions)) [
    | inl absent ↦ ground arith
    | inr (s, e) ↦ (
      λ h. (
        ground (arith, state_eq_iff s.state from),
        (s, e, ground (arith, state_eq_iff s.state from)),
      ),
      λ h. ground (arith, state_eq_iff s.state from),
    )
  ]

  -- A refused `Transition` of the in-memory adapter leaves the whole store as it was; the error
  -- tells a missing session from one that is terminal or in another state than `from`.
  transition_refused :
      (e : Error)
      → (transition id from to u m).0 ≡ err e
      → ((transition id from to u m).1 ≡ m)
        × (((e ≡ not_found) × (lookup id m.sessions ≡ none))
            ⊎ ((e ≡ invalid_transition)
                × ((s : Session) × (lookup id m.sessions ≡ some s)
                    × ((is_terminal s.state ≡ true) ⊎ (s.state ≢ from)))))
  unfolding transition
  transition_refused e h = elim (Option-cases (lookup id m.sessions)) [
    | inl absent ↦ ground arith
    | inr (s, p) ↦
        (ground arith, inr (ground arith, (s, p, ground (arith, state_eq_iff s.state from))))
  ]

  -- The guards passed: what is written.
  pub transition_passed :
      (s : Session)
      → lookup id m.sessions ≡ some s
      → s.state ≡ from
      → is_terminal from ≡ false
      → transition id from to u m ≡ (ok tt, apply_transition id to u s m)
  unfolding transition
  transition_passed s found at live = ground (arith, state_eq_iff s.state from)

  pub lookup-apply_transition :
      (s : Session) (j : String)
      → lookup j (apply_transition id to u s m).sessions ≡ (
          if str_eq id j
          then some (record (write_update u s m).0 { state = to })
          else lookup j m.sessions)
  unfolding apply_transition
  lookup-apply_transition s j = lookup-insert id j _ m.sessions

  -- The three outcomes of `Transition` of the in-memory adapter. It succeeds on a session in the
  -- state `from` that is not terminal: then that session alone is written; it has the new state and
  -- those of the six fields that the update sets, its other fields are as they were, and the index leads
  -- from the checkout ID of the update, if it has one, to the session, and else from where it led. It finds no session, or one that is terminal or in another state: then
  -- the error tells which, and the whole store is as it was.
  pub transition_outcomes :
      (((transition id from to u m).0 ≡ ok tt)
        × (is_terminal from ≡ false)
        × ((s : Session) × ((s' : Session) × (lookup id m.sessions ≡ some s)
              × (s.state ≡ from)
              × IsWritten u to s s'
              × ((j : String)
                  → lookup j (transition id from to u m).1.sessions
                    ≡ (if str_eq id j then some s' else lookup j m.sessions))
              × IsIndexed
                  (given (λ v. v.checkout_request_id) u)
                  s.id
                  m.by_checkout
                  (transition id from to u m).1.by_checkout)))
      ⊎ ((transition id from to u m ≡ (err not_found, m)) × (lookup id m.sessions ≡ none))
      ⊎ ((transition id from to u m ≡ (err invalid_transition, m))
          × ((s : Session) × (lookup id m.sessions ≡ some s)
              × ((is_terminal s.state ≡ true) ⊎ (s.state ≢ from))))
  unfolding transition apply_transition
  transition_outcomes = elim (Option-cases (lookup id m.sessions)) [
    | inl absent ↦ inr (inl (ground arith, absent))
    | inr (s, e) ↦ elim (Bool-cases (is_terminal s.state)) [
      | inl ended ↦ inr (inr (ground arith, (s, e, inl ended)))
      | inr live ↦ elim (Bool-cases (state_eq s.state from)) [
        | inl met ↦
            let at = (state_eq_iff s.state from).0 met in
            let live' = subst (λ t. is_terminal t ≡ false) at live in
            let passed = transition_passed s e at live' in
            inl (
              ap (λ x. x.0) passed,
              live',
              (
                s,
                (
                  record (write_update u s m).0 { state = to },
                  e,
                  at,
                  write_update-IsWritten u to s m,
                  λ j. rw passed (lookup-apply_transition s j),
                  rw passed (write_update-IsIndexed u s m),
                ),
              ),
            )
        | inr unmet ↦
            inr (inr (ground arith, (s, e, inr (ground (arith, state_eq_iff s.state from)))))
      ]
    ]
  ]

module _ (now : Time) (id : String) (m : Memory) where
  -- `ConsumeIfConfirmed` of the in-memory adapter succeeds exactly on a confirmed session.
  consume_ok_iff :
      ((s' : Session) × ((consume_if_confirmed now id m).0 ≡ ok s'))
      ↔ ((s : Session) × (lookup id m.sessions ≡ some s) × (s.state ≡ confirmed))
  unfolding consume_if_confirmed
  consume_ok_iff = elim (Option-cases (lookup id m.sessions)) [
    | inl absent ↦ ground arith
    | inr (s, e) ↦ (
      λ h. (s, e, ground (arith, state_eq_iff s.state confirmed)),
      λ h. (
        record s { state = consumed; consumed_at = some now },
        ground (arith, state_eq_iff s.state confirmed, state_eq_iff s.state consumed),
      ),
    )
  ]

module _ (now : Time) (id : String) (m : Memory) where
  -- A refused `ConsumeIfConfirmed` of the in-memory adapter leaves the whole store as it was; its
  -- error tells apart a missing session, a consumed one, and one that is neither confirmed nor
  -- consumed.
  consume_refused :
      (e : Error)
      → (consume_if_confirmed now id m).0 ≡ err e
      → ((consume_if_confirmed now id m).1 ≡ m)
        × (((e ≡ not_found) × (lookup id m.sessions ≡ none))
            ⊎ ((s : Session) × (lookup id m.sessions ≡ some s)
                × (((e ≡ already_consumed) × (s.state ≡ consumed))
                    ⊎ ((e ≡ invalid_transition) × (s.state ≢ confirmed) × (s.state ≢ consumed)))))
  unfolding consume_if_confirmed
  consume_refused e h = elim (Option-cases (lookup id m.sessions)) [
    | inl absent ↦ ground arith
    | inr (s, p) ↦ (
      ground arith,
      inr (s, p, ground (arith, state_eq_iff s.state confirmed, state_eq_iff s.state consumed)),
    )
  ]

-- The ways a call can go, for proofs about what it leaves behind.
pub create_cases :
    (s : Session) (m : Memory)
    → ((t : Session) × (lookup s.id m.sessions ≡ some t) × (create s m ≡ (err session_exists, m)))
      ⊎ ((lookup s.id m.sessions ≡ none)
          × (create s m ≡ (ok tt, record m { sessions = insert s.id s m.sessions })))
unfolding create
create_cases s m = elim (Option-cases (lookup s.id m.sessions)) [
  | inl fresh ↦ inr (fresh, ground arith)
  | inr (t, taken) ↦ inl (t, taken, ground arith)
]

pub transition_cases :
    (id : String) (from to : State) (u : Option Update) (m : Memory)
    → ((e : Error) × (transition id from to u m ≡ (err e, m)))
      ⊎ ((s : Session) × (lookup id m.sessions ≡ some s)
          × (s.state ≡ from)
          × (is_terminal from ≡ false)
          × (transition id from to u m ≡ (ok tt, apply_transition id to u s m)))
unfolding transition
transition_cases id from to u m = elim (Option-cases (lookup id m.sessions)) [
  | inl absent ↦ inl (not_found, ground arith)
  | inr (s, p) ↦ elim (Bool-cases (is_terminal s.state)) [
    | inl over ↦ inl (invalid_transition, ground arith)
    | inr live ↦ elim (Bool-cases (state_eq s.state from)) [
      | inl met ↦
          let at = (state_eq_iff s.state from).0 met in
          inr (s, p, at, subst (λ t. is_terminal t ≡ false) at live, ground arith)
      | inr unmet ↦ inl (invalid_transition, ground arith)
    ]
  ]
]

pub consume_cases :
    (now : Time) (id : String) (m : Memory)
    → ((e : Error) × (consume_if_confirmed now id m ≡ (err e, m)))
      ⊎ ((s : Session) × (lookup id m.sessions ≡ some s)
          × (s.state ≡ confirmed)
          × (consume_if_confirmed now id m ≡ (
              let s' = record s { state = consumed; consumed_at = some now } in
              (ok s', record m { sessions = insert id s' m.sessions }))))
unfolding consume_if_confirmed
consume_cases now id m = elim (Option-cases (lookup id m.sessions)) [
  | inl absent ↦ inl (not_found, ground arith)
  | inr (s, p) ↦ elim (Bool-cases (state_eq s.state confirmed)) [
    | inl met ↦
        let at = (state_eq_iff s.state confirmed).0 met in
        inr (s, p, at, ground (arith, state_eq_iff s.state consumed))
    | inr unmet ↦ elim (Bool-cases (state_eq s.state consumed)) [
      | inl spent ↦ inl (already_consumed, ground arith)
      | inr early ↦ inl (invalid_transition, ground arith)
    ]
  ]
]
