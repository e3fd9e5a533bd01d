-- ===== src/X402/Release.antt =====
-- When the gate lets a request through, over any safe adapter.
use malipo.Base.{
  String, ◌≡◌, ◌≢◌, refl, sym, ◌∙◌, ap, subst, ◌↔◌, ◌⊎◌, inl, inr, true, false, some, List, arith,
}
use malipo.Base.{str_eq, eq_refl, eq_iff, Bool-cases}
use malipo.Store.State.{
  State, confirmed, consumed, is_terminal, to_string, to_string_inj, state_eq_iff,
}
use malipo.Store.Session.{Session, Time}
use malipo.Store.Error.{Result, ok, err, Result-cases}
use malipo.Store.Adapter.{StorageAdapter, IsAdapter, SetsState}
use malipo.Store.Safety.{IsSafeAdapter}
use malipo.Session.Manager.{get_status, consume_if_confirmed}
use malipo.Session.Trace.{Call, run}
use malipo.Session.Trace.Safe.{safe}
use malipo.Session.Trace.Release.{run-IsValid, terminal_stays}
use malipo.X402.{Reply, served, status, release, redeem}

-- The gate compares the texts of two states, which is to compare the states.
text_of_confirmed : (t : State) → str_eq (to_string t) (to_string confirmed) ≡ true → t ≡ confirmed
text_of_confirmed t h = (state_eq_iff t confirmed).0 (sym (to_string_inj t confirmed) ∙ h)

module _ (A : StorageAdapter) (id : String) (now : Time) (between : A.Db → A.Db) (db : A.Db) where
  -- A redemption is refused with 402 before it reaches the store, or is what the consumption says.
  pub redeem_cases :
      ((redeem A id now between db).0 ≡ status 402)
      ⊎ (redeem A id now between db ≡ release A (consume_if_confirmed A now id (between db)))
  unfolding redeem
  redeem_cases = elim (Result-cases (get_status A id db)) [
    | inl (e, h) ↦ inl (rw (redeem, h))
    | inr ((t, ends), h) ↦ elim (Bool-cases (str_eq t (to_string confirmed))) [
      | inl ready ↦ inr (rw (redeem, h, ready))
      | inr unready ↦ inl (rw (redeem, h, unready))
    ]
  ]

pub release_store : (A : StorageAdapter) (r : Result (Unit {0}) × A.Db) → (release A r).1 ≡ r.1
release_store A (ok _, db) = refl
release_store A (err e, db) = refl

module _ (A : StorageAdapter) (S : IsSafeAdapter A) (id : String) where
  open S use {IsValid, state_of}

  module _ (now : Time) (between : A.Db → A.Db) (db : A.Db) where
    -- A consumption that succeeds spends this session and no other.
    consume_SetsState :
        (db' : A.Db) {s : Session}
        → IsValid db'
        → (A.consume_if_confirmed now id db').0 ≡ ok s
        → SetsState (state_of db') (state_of (A.consume_if_confirmed now id db').1) id consumed
    consume_SetsState db' v done j = elim (S.consume_sets now id db' v j) [
      | inl same ↦
          let (at, over) = S.consume_spends now id db' v done in
          elim (Bool-cases (str_eq id j)) [
            | inl own ↦
                let e = (eq_iff id j).0 own in
                ap (state_of (A.consume_if_confirmed now id db').1) (sym e) ∙ over ∙ rw own
            | inr other ↦ same ∙ rw other
          ]
      | inr (own, _, set) ↦ set ∙ rw (own, eq_refl j)
    ]

    release_served :
        IsValid (between db)
        → (release A (consume_if_confirmed A now id (between db))).0 ≡ served
        → (state_of (between db) id ≡ some confirmed)
          × SetsState
              (state_of (between db))
              (state_of (release A (consume_if_confirmed A now id (between db))).1)
              id
              consumed
    unfolding consume_if_confirmed
    release_served v h = elim (Result-cases (A.consume_if_confirmed now id (between db)).0) [
      | inl (e, failed) ↦ absurd (ground arith)
      | inr (s, done) ↦ (
        (S.consume_spends now id (between db) v done).0,
        λ j.
            rw (release_store A (consume_if_confirmed A now id (between db)))
              (consume_SetsState (between db) v done j),
      )
    ]

    -- A redeemed session ID lets the request through only if the session was confirmed when the
    -- consumption ran, whatever others did since the status was read; it is then consumed, and no
    -- other session's state is changed.
    pub redeem_served :
        IsValid (between db)
        → (redeem A id now between db).0 ≡ served
        → (state_of (between db) id ≡ some confirmed)
          × SetsState (state_of (between db)) (state_of (redeem A id now between db).1) id consumed
    redeem_served v h = elim (redeem_cases A id now between db) [
      | inl early ↦ absurd (cc)
      | inr late ↦ rw late (release_served v (subst (λ (r : Reply × A.Db). r.0 ≡ served) late h))
    ]

  redeem-IsValid :
      (now : Time) (between : A.Db → A.Db) (db : A.Db)
      → IsValid (between db)
      → (redeem A id now between db).0 ≡ served
      → IsValid (redeem A id now between db).1
  unfolding consume_if_confirmed
  redeem-IsValid now between db v h = elim (redeem_cases A id now between db) [
    | inl early ↦ absurd (cc)
    | inr late ↦ rw (late, release_store A _) (S.consume-IsValid now id (between db) v)
  ]

  -- Over any safe adapter, on a valid store: a session ID that has let one request
  -- through lets no other through, whatever atomic calls others make between the two requests and
  -- during the second, and whatever they do during the first that leaves the store valid.
  redeem_once :
      (now later : Time) (between : A.Db → A.Db) (db : A.Db) (since during : List Call)
      → IsValid (between db)
      → (redeem A id now between db).0 ≡ served
      → (redeem A id later (run A during) (run A since (redeem A id now between db).1)).0 ≢ served
  unfolding is_terminal
  redeem_once now later between db since during v first second =
      let (_, moved) = redeem_served now between db v first in
      let valid = redeem-IsValid now between db v first in
      let valid' = run-IsValid A S since (redeem A id now between db).1 valid in
      let spent =
        terminal_stays A S since (redeem A id now between db).1 id consumed valid refl
          (rw (eq_refl id) at (moved id)) in
      let spent' =
        terminal_stays A S during (run A since (redeem A id now between db).1) id consumed valid'
          refl spent in
      let (ready, _) =
        redeem_served later (run A during) (run A since (redeem A id now between db).1)
          (run-IsValid A S during (run A since (redeem A id now between db).1) valid') second in
      cc (ready, spent')

module _ (A : StorageAdapter) (L : IsAdapter A) (id : String) where
  open L use {IsValid, state_of}

  confirmed_redeemed :
      (now : Time) (db : A.Db)
      → IsValid db
      → id ≢ ""
      → state_of db id ≡ some confirmed
      → (redeem A id now (λ d. d) db).0 ≡ served
  unfolding redeem get_status consume_if_confirmed
  confirmed_redeemed now db v set at =
      let (s, got, _, state) = L.get_present id db v at in
      let (t, done, _) = L.consume_confirmed now id db v at in
      rw (redeem, get_status, nonempty, got, state, eq_refl (to_string confirmed), done)
    where
      nonempty : str_eq id "" ≡ false
      nonempty = ground (arith, eq_iff id "")

  -- Over any adapter that keeps its laws, on a valid store and with nobody between its two calls:
  -- the redemption of a session ID that is not empty lets the request through exactly if the
  -- session is confirmed.
  pub redeem_served_iff :
      (now : Time) (db : A.Db)
      → IsValid db
      → id ≢ ""
      → ((redeem A id now (λ d. d) db).0 ≡ served) ↔ (state_of db id ≡ some confirmed)
  redeem_served_iff now db v set = (
    λ h. (redeem_served A (safe A L) id now (λ d. d) db v h).0,
    λ at. confirmed_redeemed now db v set at,
  )
