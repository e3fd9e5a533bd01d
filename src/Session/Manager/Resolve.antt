-- ===== src/Session/Manager/Resolve.antt =====
-- The three ways that resolve a pending session: the callback, the recovery query and the timer.
use malipo.Base.{
  String, ◌≡◌, ◌≢◌, refl, ◌∙◌, ap, ◌⊎◌, inl, inr, true, false, Option, none, some, arith,
}
use malipo.Base.{str_eq, eq_iff, if◌then◌else◌, Bool-cases}
use malipo.Base.Int.{ℤ, pos, eqb_ℤ}
use malipo.Store.State.{
  State, stk_pushed, awaiting_pin, confirmed, timeout, cancelled, failed, state_eq,
}
use malipo.Store.Session.{Session, Update}
use malipo.Store.Error.{Error, Result, ok, err, invalid_transition}
use malipo.Store.Adapter.{StorageAdapter, IsAdapter, SetsState, is_pending}
use malipo.Session.Machine.{
  next_state, ttl_expired, result_code_to_event, query_result_code_to_event,
}
use malipo.Session.Token.{TokenProvider}
use malipo.Session.Manager.{Config, transition, handle_callback, elapsed, expire_after, recover_one}
use malipo.Session.Manager.Transition.{transition_fires, transition_unmet, transition_off_table}

-- What a callback's result code makes of a pending session.
abbrev pub callback_outcome : ℤ → State
callback_outcome code =
    if eqb_ℤ code (pos 0)
    then confirmed
    else if eqb_ℤ code (pos 1032)
    then cancelled
    else if eqb_ℤ code (pos 1037)
    then timeout
    else failed

pub next_state-callback :
    (s : State) (code : ℤ)
    → is_pending s ≡ true
    → next_state s (result_code_to_event code) ≡ some (callback_outcome code)
unfolding next_state result_code_to_event state_eq
next_state-callback stk_pushed code h = ground arith
next_state-callback awaiting_pin code h = ground arith
next_state-callback s code h = absurd (ground arith)

next_state-late :
    (s : State) (code : ℤ) → is_pending s ≡ false → next_state s (result_code_to_event code) ≡ none
unfolding next_state result_code_to_event state_eq
next_state-late stk_pushed code h = absurd (ground arith)
next_state-late s code h = ground arith

module _ (A : StorageAdapter) (L : IsAdapter A) (checkout_id : String) (code : ℤ)
    (u : Option Update) (between : A.Db → A.Db) (db : A.Db) where
  open L use {IsValid, state_of}

  pub handle_callback_found :
      (s : Session)
      → A.get_by_checkout_id checkout_id db ≡ ok s
      → handle_callback A checkout_id code u between db
        ≡ transition A s.id s.state (result_code_to_event code) u (between db)
  unfolding handle_callback
  handle_callback_found s found = rw (handle_callback, found)

  -- Over any adapter that keeps its laws: a callback whose checkout ID leads to a session in a
  -- pending state, which the session still has when the write comes, resolves it as the result code
  -- says, and changes the state of no other session.
  pub handle_callback_pending :
      (s : Session)
      → A.get_by_checkout_id checkout_id db ≡ ok s
      → is_pending s.state ≡ true
      → state_of (between db) s.id ≡ some s.state
      → let out = handle_callback A checkout_id code u between db in
        (out.0 ≡ ok tt)
        × SetsState (state_of (between db)) (state_of out.1) s.id (callback_outcome code)
  handle_callback_pending s found pending at = rw (handle_callback_found s found) (
      transition_fires A L s.id s.state (result_code_to_event code) u (between db)
        (next_state-callback s.state code pending) at)

  -- A callback whose checkout ID leads to a session in no pending state is refused as an invalid
  -- transition and writes nothing.
  handle_callback_late :
      (s : Session)
      → A.get_by_checkout_id checkout_id db ≡ ok s
      → is_pending s.state ≡ false
      → handle_callback A checkout_id code u between db ≡ (err invalid_transition, between db)
  handle_callback_late s found late =
      handle_callback_found s found
      ∙ transition_off_table A s.id s.state (result_code_to_event code) u (between db)
          (next_state-late s.state code late)

  -- Over any adapter that keeps its laws: a callback that loses a race, its session having left the
  -- state that was read, is refused and writes nothing.
  handle_callback_raced :
      (s : Session)
      → A.get_by_checkout_id checkout_id db ≡ ok s
      → state_of (between db) s.id ≢ some s.state
      → (x : Error) × (handle_callback A checkout_id code u between db ≡ (err x, between db))
  handle_callback_raced s found away =
      let (x, refused) =
        transition_unmet A L s.id s.state (result_code_to_event code) u (between db) away in
      (x, handle_callback_found s found ∙ refused)

ttl_step : next_state stk_pushed ttl_expired ≡ some timeout
unfolding next_state
ttl_step = refl

module _ (A : StorageAdapter) (L : IsAdapter A) (id : String) (db : A.Db) where
  open L use {IsValid, state_of}

  -- The timer of a session times it out if it is STK_PUSHED, and in any other state writes nothing.
  expire_after_pushed :
      ((state_of db id ≡ some stk_pushed)
        → SetsState (state_of db) (state_of (expire_after A elapsed id db)) id timeout)
      × ((state_of db id ≢ some stk_pushed) → expire_after A elapsed id db ≡ db)
  unfolding expire_after
  expire_after_pushed = (
    λ at. (transition_fires A L id stk_pushed ttl_expired none db ttl_step at).1,
    λ away.
        ap (λ (r : Result (Unit {0}) × A.Db). r.1)
          (transition_unmet A L id stk_pushed ttl_expired none db away).1,
  )

-- What a query's answer makes of a pending session.
abbrev pub query_outcome : String → State
query_outcome code =
    if str_eq code "0"
    then confirmed
    else if str_eq code "500.001.1001"
    then awaiting_pin
    else failed

query_step :
    (s : State) (code : String)
    → is_pending s ≡ true
    → (next_state s (query_result_code_to_event code) ≡ some (query_outcome code))
      ⊎ ((next_state s (query_result_code_to_event code) ≡ none) × (s ≡ query_outcome code))
unfolding next_state query_result_code_to_event state_eq
query_step stk_pushed code h = elim (Bool-cases (str_eq code "0")) [
  | inl paid ↦ ground arith
  | inr unpaid ↦ ground arith
]
query_step awaiting_pin code h = elim (Bool-cases (str_eq code "0")) [
  | inl paid ↦ ground arith
  | inr unpaid ↦ ground arith
]
query_step s code h = absurd (ground arith)

module _ (A : StorageAdapter) (L : IsAdapter A) (cfg : Config) (auth : TokenProvider)
    (between : Session → A.Db → A.Db) (s : Session) (db : A.Db) where
  open L use {IsValid, state_of}

  -- Over any adapter that keeps its laws, one step of the recovery pass over a listed session that
  -- has a checkout ID, is pending, is still in its state when the write comes, and whose query is
  -- answered: the answer "0" confirms it, "still processing" leaves it AWAITING_PIN, any other
  -- fails it, and no other session's state is changed.
  pub recover_one_answered :
      {code desc : String}
      → str_eq s.checkout_request_id "" ≡ false
      → auth.query_stk_status cfg.shortcode cfg.passkey s.checkout_request_id ≡ ok (code, desc)
      → is_pending s.state ≡ true
      → state_of (between s db) s.id ≡ some s.state
      → SetsState
          (state_of (between s db))
          (state_of (recover_one A cfg auth between s db))
          s.id
          (query_outcome code)
  unfolding recover_one
  recover_one_answered {code} set answer pending at =
      let e = query_result_code_to_event code in
      rw (recover_one, set, answer)
        (elim (query_step s.state code pending) [
          | inl p ↦ (transition_fires A L s.id s.state e none (between s db) p at).1
          | inr (off, same) ↦
              rw (transition_off_table A s.id s.state e none (between s db) off)
                (λ j. ground (arith, eq_iff s.id j))
        ])

  -- A session without a checkout ID, or whose query fails, is left alone.
  recover_one_skipped :
      (str_eq s.checkout_request_id "" ≡ true)
        ⊎ ((e : Error) × (auth.query_stk_status cfg.shortcode cfg.passkey s.checkout_request_id
              ≡ err e))
      → recover_one A cfg auth between s db ≡ db
  unfolding recover_one
  recover_one_skipped h = ground arith
