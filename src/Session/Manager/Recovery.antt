-- ===== src/Session/Manager/Recovery.antt =====
-- session/ttl.go: what the recovery pass as a whole does to a session that it lists.
use malipo.Base.{
  String, ◌≡◌, ◌≢◌, sym, ◌∙◌, ap, subst, ◌⊎◌, inl, inr, true, false, none, some, List, [], ◌∷◌,
  arith,
}
use malipo.Base.{All, str_eq, eq_iff, eq_refl, Bool-cases}
use malipo.Base.Int.{◌-ℤ◌}
use malipo.Store.State.{State}
use malipo.Store.Session.{Session, Time}
use malipo.Store.Error.{Result, Result-cases, ok}
use malipo.Store.Adapter.{StorageAdapter, IsAdapter, is_pending}
use malipo.Session.Machine.{Event, query_result_code_to_event}
use malipo.Session.Token.{TokenProvider}
use malipo.Session.Manager.{Config, transition, recover_one, recover_all, run_recovery}
use malipo.Session.Manager.Transition.{state_is, transition_cases, transition_unmet}
use malipo.Session.Manager.Resolve.{query_outcome, recover_one_answered}

same_text : (a b : String) → (a ≡ b) ⊎ (a ≢ b)
same_text a b = elim (Bool-cases (str_eq a b)) [
  | inl same ↦ inl ((eq_iff a b).0 same)
  | inr other ↦ inr (λ h. ground (arith, eq_iff a b))
]

-- A session ID stands in a listing.
abbrev pub IsListed : String → List Session → Type 0
IsListed id [] = ⊥
IsListed id (s ∷ l) = (s.id ≡ id) ⊎ IsListed id l

module _ (A : StorageAdapter) (L : IsAdapter A) (cfg : Config) (auth : TokenProvider)
    (between : Session → A.Db → A.Db) (id code : String) (t : State) where
  open L use {IsValid, state_of}

  -- The others leave the state of the session alone.
  abbrev pub IsQuiet : Type 0
  IsQuiet = (s : Session) (db : A.Db) → state_of (between s db) id ≡ state_of db id

  -- If an entry of the listing is the session's, it has a checkout ID, and its query is answered with
  -- the code.
  abbrev pub IsAnswered : Session → Type 0
  IsAnswered s =
      s.id ≡ id
      → (s.checkout_request_id ≢ "")
        × ((desc : String) × (auth.query_stk_status cfg.shortcode cfg.passkey s.checkout_request_id
              ≡ ok (code, desc)))

  -- A transition of another session.
  fired_elsewhere :
      (s : Session) (db : A.Db)
      → s.id ≢ id
      → (e : Event) → state_of (transition A s.id s.state e none db).1 id ≡ state_of db id
  fired_elsewhere s db away e = elim (transition_cases A L s.id s.state e none db) [
    | inl (x, kept) ↦ ap (λ (r : Result (Unit {0}) × A.Db). state_of r.1 id) kept
    | inr (to, _, _, _, moved) ↦ ground (arith, moved id, eq_iff s.id id)
  ]

  -- An entry of another session.
  other_entry :
      (s : Session) (db : A.Db)
      → IsQuiet
      → s.id ≢ id
      → state_of (recover_one A cfg auth between s db) id ≡ state_of db id
  unfolding recover_one
  other_entry s db quiet away = elim (Bool-cases (str_eq s.checkout_request_id "")) [
    | inl unset ↦ rw (recover_one, unset)
    | inr set ↦
        elim (Result-cases
          (auth.query_stk_status cfg.shortcode cfg.passkey s.checkout_request_id)) [
            | inl (e, h) ↦ rw (recover_one, set, h)
            | inr ((c, desc), h) ↦
                rw (recover_one, set, h)
                  (fired_elsewhere s (between s db) away (query_result_code_to_event c)
                    ∙ quiet s db)
          ]
  ]

  -- An entry of the session, which is still in its state.
  own_entry :
      (s : Session) (db : A.Db)
      → IsQuiet
      → IsAnswered s
      → s.id ≡ id
      → s.state ≡ t
      → is_pending t ≡ true
      → state_of db id ≡ some t
      → state_of (recover_one A cfg auth between s db) id ≡ some (query_outcome code)
  own_entry s db quiet answered own same pending at =
      let (set, (desc, answer)) = answered own in
      recover_one_answered A L cfg auth between s db
        (ground (arith, eq_iff s.checkout_request_id "")) answer (ap is_pending same ∙ pending)
        (ap (state_of (between s db)) own ∙ quiet s db ∙ at ∙ ap some (sym same)) id
      ∙ rw (own, eq_refl id)

  -- An entry of the session, which the pass has moved before.
  late_entry :
      (s : Session) (db : A.Db)
      → IsQuiet
      → IsAnswered s
      → s.id ≡ id
      → s.state ≡ t
      → is_pending t ≡ true
      → state_of db id ≡ some (query_outcome code)
      → state_of (recover_one A cfg auth between s db) id ≡ some (query_outcome code)
  unfolding recover_one
  late_entry s db quiet answered own same pending at =
      let now_at = ap (state_of (between s db)) own ∙ quiet s db ∙ at in
      elim (state_is (state_of db id) t) [
        | inl still ↦ own_entry s db quiet answered own same pending still
        | inr moved ↦
            let (set, (desc, answer)) = answered own in
            let set' : str_eq s.checkout_request_id "" ≡ false =
              ground (arith, eq_iff s.checkout_request_id "") in
            let (x, kept) =
              transition_unmet A L s.id s.state (query_result_code_to_event code) none
                (between s db) (λ h. moved (at ∙ sym now_at ∙ h ∙ ap some same)) in
            rw (recover_one, set', answer, kept) (quiet s db ∙ at)
      ]

  -- The rest of the listing, once the session is moved.
  recover_all_stays :
      (l : List Session) (db : A.Db)
      → IsQuiet
      → All IsAnswered l
      → All (λ s. s.id ≡ id → s.state ≡ t) l
      → is_pending t ≡ true
      → state_of db id ≡ some (query_outcome code)
      → state_of (recover_all A cfg auth between l db) id ≡ some (query_outcome code)
  unfolding recover_all
  recover_all_stays [] db quiet answered same pending at = at
  recover_all_stays (s ∷ l) db quiet answered same pending at =
      recover_all_stays l (recover_one A cfg auth between s db) quiet answered.1 same.1 pending
        (elim (same_text s.id id) [
          | inl own ↦ late_entry s db quiet answered.0 own (same.0 own) pending at
          | inr away ↦ other_entry s db quiet away ∙ at
        ])

  recover_all_moves :
      (l : List Session) (db : A.Db)
      → IsQuiet
      → IsListed id l
      → All IsAnswered l
      → All (λ s. s.id ≡ id → s.state ≡ t) l
      → is_pending t ≡ true
      → state_of db id ≡ some t
      → state_of (recover_all A cfg auth between l db) id ≡ some (query_outcome code)
  unfolding recover_all
  recover_all_moves [] db quiet listed answered same pending at = absurd listed
  recover_all_moves (s ∷ l) db quiet listed answered same pending at = elim (same_text s.id id) [
    | inl own ↦
        recover_all_stays l (recover_one A cfg auth between s db) quiet answered.1 same.1 pending
          (own_entry s db quiet answered.0 own (same.0 own) pending at)
    | inr away ↦
        recover_all_moves l (recover_one A cfg auth between s db) quiet (later listed away)
          answered.1 same.1 pending (other_entry s db quiet away ∙ at)
  ]
    where
      later : (s.id ≡ id) ⊎ IsListed id l → s.id ≢ id → IsListed id l
      later (inl own) away = absurd (away own)
      later (inr rest) away = rest

  -- Over any adapter that keeps its laws, from a valid store, while others leave the state of the session
  -- alone: if the listing of the recovery pass has a pending session, each entry of which has a checkout ID
  -- that the service answers with a code, then after the pass the session is in the state that the code
  -- stands for, whatever comes of the other entries: CONFIRMED for "0", AWAITING_PIN for "500.001.1001", and
  -- FAILED for any other code, also for "1032" and "1037", the codes of CANCELLED and TIMEOUT in a callback.
  pub run_recovery_moves :
      (now : Time) (db : A.Db) (l : List Session)
      → IsQuiet
      → IsValid db
      → A.list_pending (now -ℤ cfg.query_threshold) db ≡ ok l
      → state_of db id ≡ some t
      → is_pending t ≡ true
      → IsListed id l
      → All IsAnswered l
      → state_of (run_recovery A cfg auth now between db) id ≡ some (query_outcome code)
  unfolding run_recovery
  run_recovery_moves now db l quiet v h at pending listed answered =
      let (l', h', held) = L.list_pending_held (now -ℤ cfg.query_threshold) db v in
      let same : l' ≡ l = cc (h, h') in
      rw (run_recovery, h)
        (recover_all_moves l db quiet listed answered
          (listed_states l (
            subst
              (λ k. All (λ s. (state_of db s.id ≡ some s.state) × (is_pending s.state ≡ true)) k)
              same held))
          pending at)
    where
      listed_states :
          (k : List Session)
          → All (λ s. (state_of db s.id ≡ some s.state) × (is_pending s.state ≡ true)) k
          → All (λ s. s.id ≡ id → s.state ≡ t) k
      listed_states [] g = tt
      listed_states (s ∷ k) g = (
        λ own. let e : some s.state ≡ some t = sym g.0.0 ∙ ap (state_of db) own ∙ at in cc e,
        listed_states k g.1,
      )
