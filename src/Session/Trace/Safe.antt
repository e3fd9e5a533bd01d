-- ===== src/Session/Trace/Safe.antt =====
-- An adapter that keeps its laws is a safe one.
use malipo.Base.{String, ◌≡◌, ap, inl, inr, false, Option, none, some, arith}
use malipo.Base.{Option-cases, eq_refl, ◌∙◌}
use malipo.Store.State.{State, confirmed, consumed, is_terminal}
use malipo.Store.Session.{Session, Update, Time}
use malipo.Store.Error.{Result, ok}
use malipo.Store.Adapter.{StorageAdapter, IsAdapter}
use malipo.Store.Safety.{MaySet, IsSafeAdapter, SetsState-MaySet, unwritten}
use malipo.Session.Manager.Transition.{state_is, consume_cases}

module _ (A : StorageAdapter) (L : IsAdapter A) where
  open L use {IsValid, state_of}

  pub create_sets :
      (s : Session) (db : A.Db)
      → MaySet (state_of db) (state_of (A.create s db).1) s.id none s.state
  create_sets s db = elim (Option-cases (state_of db s.id)) [
    | inl fresh ↦
        SetsState-MaySet (state_of db) _ s.id none s.state fresh (L.create_fresh s db fresh).1
    | inr (t, taken) ↦
        unwritten (state_of db) _ s.id none s.state
          (ap (λ (r : Result (Unit {0}) × A.Db). state_of r.1) (L.create_taken s db taken))
  ]

  pub transition_sets :
      (id : String) (from to : State) (u : Option Update) (db : A.Db)
      → is_terminal from ≡ false
      → MaySet (state_of db) (state_of (A.transition id from to u db).1) id (some from) to
  transition_sets id from to u db live = elim (state_is (state_of db id) from) [
    | inl at ↦
        SetsState-MaySet (state_of db) _ id (some from) to at
          (L.transition_met id from to u db live at).1
    | inr away ↦
        let (x, refused) = L.transition_unmet id from to u db live away in
        unwritten (state_of db) _ id (some from) to
          (ap (λ (r : Result (Unit {0}) × A.Db). state_of r.1) refused)
  ]

  module _ (now : Time) (id : String) (db : A.Db) (v : IsValid db) where
    pub consume_sets :
        MaySet
          (state_of db)
          (state_of (A.consume_if_confirmed now id db).1)
          id
          (some confirmed)
          consumed
    consume_sets = elim (consume_cases A L now id db v) [
      | inl (x, refused) ↦
          unwritten (state_of db) _ id (some confirmed) consumed
            (ap (λ (r : Result Session × A.Db). state_of r.1) refused)
      | inr (at, _, moved) ↦ SetsState-MaySet (state_of db) _ id (some confirmed) consumed at moved
    ]

    pub consume_spends :
        {s : Session}
        → (A.consume_if_confirmed now id db).0 ≡ ok s
        → (state_of db id ≡ some confirmed)
          × (state_of (A.consume_if_confirmed now id db).1 id ≡ some consumed)
    consume_spends done = elim (consume_cases A L now id db v) [
      | inl (x, refused) ↦ absurd (ground (arith, ap (λ (r : Result Session × A.Db). r.0) refused))
      | inr (at, _, moved) ↦ (at, moved id ∙ rw (eq_refl id))
    ]

abbrev pub safe : (A : StorageAdapter) → IsAdapter A → IsSafeAdapter A
safe A L = record {
  IsValid = L.IsValid;
  state_of = L.state_of;
  create-IsValid = L.create-IsValid;
  transition-IsValid = L.transition-IsValid;
  consume-IsValid = L.consume-IsValid;
  expire-IsValid = L.expire-IsValid;
  create_sets = create_sets A L;
  transition_sets = transition_sets A L;
  consume_sets = λ now id db v. consume_sets A L now id db v;
  consume_spends = λ now id db v done. consume_spends A L now id db v done;
  expire_sets = L.expire_states;
}
