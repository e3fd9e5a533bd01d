-- ===== src/Session/Trace/Release.antt =====
-- session/manager.go over time: what any interleaving of its calls keeps of a session's state.
use malipo.Base.{
  ℕ, ◌+◌, ◌≤◌, ◌<◌, String, ◌≡◌, refl, ◌∙◌, ◌⊎◌, inl, inr, Bool, true, false, Option, none, some,
  List, [], ◌∷◌, arith,
}
use malipo.Base.{if◌then◌else◌, str_eq, eq_iff, Option-cases, Bool-cases}
use malipo.Store.State.{State, created, consumed, is_terminal}
use malipo.Store.Session.{Update, Time}
use malipo.Store.Error.{Result-cases}
use malipo.Store.Adapter.{StorageAdapter}
use malipo.Store.Safety.{MaySet, IsSafeAdapter}
use malipo.Session.Machine.{Event, callback_success, next_state}
use malipo.Session.Machine.Paths.{is_paid}
use malipo.Session.Manager.{transition}
use malipo.Session.Manager.Transition.{next_state-live, transition_on_table, transition_off_table}
use malipo.Session.Trace.{
  Call, create, fire, consume, expire, perform, run, releases, releases_in, confirms, any_confirms,
}
use malipo.Session.Trace.Moves.{
  Moves, stays, appears, fires, expires, perform-IsValid, perform-Moves,
}

-- 1 for a consumed session.
abbrev pub spent : Option State → ℕ
spent (some consumed) = 1
spent _ = 0

abbrev pub paid : Option State → Bool
paid none = false
paid (some s) = is_paid s

Moves-terminal :
    {o p : Option State} (t : State) → Moves o p → is_terminal t ≡ true → o ≡ some t → p ≡ some t
Moves-terminal t (stays e) h at = e ∙ at
Moves-terminal t (appears e _) h at = absurd (ground arith)
Moves-terminal t (fires s u x e _ step) h at = absurd (ground (arith, next_state-live s x step))
Moves-terminal t (expires s e live _) h at = absurd (ground arith)

spent-Moves : {o p : Option State} → Moves o p → spent o ≤ spent p
unfolding is_terminal
spent-Moves (stays e) = rw e (omega arith)
spent-Moves (appears e _) = rw e (omega arith)
spent-Moves (fires s t x e f step) = ground (arith, next_state-live s x step)
spent-Moves (expires s e live f) = ground arith

unpaid_next :
    (from : State) (e : Event) (to : State)
    → next_state from e ≡ some to
    → is_paid from ≡ false
    → (e ≡ callback_success) ⊎ (is_paid to ≡ false)
unfolding next_state
unpaid_next from e to h unpaid = ground arith

success_named :
    (id j : String) (from : State) (e : Event) (u : Option Update)
    → confirms id (fire j from e u) ≡ false
    → e ≡ callback_success
    → str_eq j id ≡ false
success_named id j from e u other h = ground arith

module _ (A : StorageAdapter) (S : IsSafeAdapter A) where
  open S use {IsValid, state_of}

  pub run-IsValid : (calls : List Call) (db : A.Db) → IsValid db → IsValid (run A calls db)
  unfolding run
  run-IsValid [] db v = v
  run-IsValid (c ∷ calls) db v = run-IsValid calls (perform A c db) (perform-IsValid A S c db v)

  -- Over any safe adapter, from a valid store: a terminal session stays in its
  -- state, whatever atomic calls are made.
  pub terminal_stays :
      (calls : List Call) (db : A.Db) (id : String) (t : State)
      → IsValid db
      → is_terminal t ≡ true
      → state_of db id ≡ some t
      → state_of (run A calls db) id ≡ some t
  unfolding run
  terminal_stays [] db id t v h at = at
  terminal_stays (c ∷ calls) db id t v h at =
      terminal_stays calls (perform A c db) id t (perform-IsValid A S c db v) h
        (Moves-terminal t (perform-Moves A S c db id v) h at)

  consumption_spends :
      (now : Time) (j : String) (db : A.Db) (id : String)
      → IsValid db
      → releases A id (consume now j) db ≡ true
      → 1 + spent (state_of db id) ≤ spent (state_of (perform A (consume now j) db) id)
  unfolding perform
  consumption_spends now j db id v released =
      elim (Result-cases (A.consume_if_confirmed now j db).0) [
        | inl (x, refused) ↦ absurd (ground arith)
        | inr (s, done) ↦
            let (at, over) = S.consume_spends now j db v done in
            ground (arith, eq_iff j id, at, over)
      ]

  release_spends :
      (c : Call) (db : A.Db) (id : String)
      → IsValid db
      → (if releases A id c db then 1 else 0) + spent (state_of db id)
        ≤ spent (state_of (perform A c db) id)
  release_spends (create s) db id v =
      omega (arith, spent-Moves (perform-Moves A S (create s) db id v))
  release_spends (fire j from e u) db id v =
      omega (arith, spent-Moves (perform-Moves A S (fire j from e u) db id v))
  release_spends (expire t) db id v =
      omega (arith, spent-Moves (perform-Moves A S (expire t) db id v))
  release_spends (consume now j) db id v = elim (Bool-cases (releases A id (consume now j) db)) [
    | inl released ↦ rw released (consumption_spends now j db id v released)
    | inr kept ↦ rw kept (omega (arith, spent-Moves (perform-Moves A S (consume now j) db id v)))
  ]

  -- Over any safe adapter, from a valid store: in any run of atomic calls the
  -- successful consumptions of a session, with one more if it was consumed before, are at most one,
  -- and there are none if the session is not consumed in the end.
  pub releases_once :
      (calls : List Call) (db : A.Db) (id : String)
      → IsValid db
      → (releases_in A id calls db + spent (state_of db id) ≤ spent (state_of (run A calls db) id))
        × (spent (state_of (run A calls db) id) ≤ 1)
  unfolding run releases_in
  releases_once [] db id v = ground arith
  releases_once (c ∷ calls) db id v = ground (
    arith,
    release_spends c db id v,
    releases_once calls (perform A c db) id (perform-IsValid A S c db v),
  )

  module _ (db : A.Db) (id : String) where
    -- A call that may set the state of a session to one that is not paid.
    unpaid_set :
        (after : String → Option State) (j : String) (o : Option State) (t : State)
        → MaySet (state_of db) after j o t
        → (j ≡ id → is_paid t ≡ false)
        → paid (state_of db id) ≡ false
        → paid (after id) ≡ false
    unpaid_set after j o t may h unpaid = elim (may id) [
      | inl same ↦ rw same unpaid
      | inr (own, _, set) ↦ rw set (h own)
    ]

    -- The event that is fired is another one, or the session is, or it was paid.
    unpaid_target :
        (j : String) (from : State) (e : Event) (u : Option Update) (to : State)
        → confirms id (fire j from e u) ≡ false
        → next_state from e ≡ some to
        → is_paid from ≡ false
        → j ≡ id
        → is_paid to ≡ false
    unpaid_target j from e u to other p unpaid own = elim (unpaid_next from e to p unpaid) [
      | inl success ↦
          absurd (ground (arith, success_named id j from e u other success, eq_iff j id))
      | inr h ↦ h
    ]

    unpaid_fire :
        (j : String) (from : State) (e : Event) (u : Option Update)
        → confirms id (fire j from e u) ≡ false
        → paid (state_of db id) ≡ false
        → paid (state_of (transition A j from e u db).1 id) ≡ false
    unpaid_fire j from e u other unpaid = elim (Option-cases (next_state from e)) [
      | inl off ↦ rw (transition_off_table A j from e u db off) unpaid
      | inr (to, p) ↦
          rw (transition_on_table A j from e u db p)
            (elim (S.transition_sets j from to u db (next_state-live from e p) id) [
              | inl same ↦ rw same unpaid
              | inr (own, at, set) ↦
                  rw set (unpaid_target j from e u to other p (ground (arith, at)) own)
            ])
    ]

    unpaid_expire :
        (t : Time)
        → paid (state_of db id) ≡ false
        → paid (state_of (A.expire_stale t db).1 id) ≡ false
    unpaid_expire t unpaid = elim (S.expire_sets t db id) [
      | inl same ↦ rw same unpaid
      | inr (s, at, live, out) ↦ rw out
    ]

    unpaid_consume :
        (now : Time) (j : String)
        → IsValid db
        → paid (state_of db id) ≡ false
        → paid (state_of (A.consume_if_confirmed now j db).1 id) ≡ false
    unpaid_consume now j v unpaid = elim (S.consume_sets now j db v id) [
      | inl same ↦ rw same unpaid
      | inr (own, at, set) ↦ absurd (ground (arith, at))
    ]

  -- Only a success event makes an unpaid session a paid one.
  unpaid_step :
      (c : Call) (db : A.Db) (id : String)
      → IsValid db
      → confirms id c ≡ false
      → paid (state_of db id) ≡ false
      → paid (state_of (perform A c db) id) ≡ false
  unfolding perform
  unpaid_step (create s) db id v other unpaid =
      unpaid_set db id _ s.id none created (S.create_sets (record s { state = created }) db)
        (λ own. refl) unpaid
  unpaid_step (fire j from e u) db id v other unpaid = unpaid_fire db id j from e u other unpaid
  unpaid_step (consume now j) db id v other unpaid = unpaid_consume db id now j v unpaid
  unpaid_step (expire t) db id v other unpaid = unpaid_expire db id t unpaid

  -- A session that no success event named stays unpaid, whatever else is called.
  unpaid_stays :
      (calls : List Call) (db : A.Db) (id : String)
      → IsValid db
      → any_confirms id calls ≡ false
      → paid (state_of db id) ≡ false
      → paid (state_of (run A calls db) id) ≡ false
  unfolding run
  unpaid_stays [] db id v none_named unpaid = unpaid
  unpaid_stays (c ∷ calls) db id v none_named unpaid =
      unpaid_stays calls (perform A c db) id (perform-IsValid A S c db v) (ground arith)
        (unpaid_step c db id v (ground arith) unpaid)

  -- Over any safe adapter, from a valid store: a session that is unpaid, or not
  -- there yet, is released in a run only if some call of the run reported the success of that very
  -- session.
  pub release_needs_success :
      (calls : List Call) (db : A.Db) (id : String)
      → IsValid db
      → paid (state_of db id) ≡ false
      → 0 < releases_in A id calls db
      → any_confirms id calls ≡ true
  release_needs_success calls db id v unpaid released = elim (Bool-cases (any_confirms id calls)) [
    | inl named ↦ named
    | inr silent ↦
        absurd
          (ground (arith, releases_once calls db id v, unpaid_stays calls db id v silent unpaid))
  ]
