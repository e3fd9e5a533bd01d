-- ===== src/Wiring/Service/Reports.antt =====
-- Where the reports of success come from: without one, no request is served.
use malipo.Base.{String, ◌≡◌, ◌≢◌, refl, inl, inr, true, false, Option, some, List, [], ◌∷◌, arith}
use malipo.Base.{All, eq_iff, Bool-cases}
use malipo.Base.Int.{ℤ, pos, negsuc, eqb_ℤ}
use malipo.Store.State.{State}
use malipo.Store.Session.{Session, Bytes, Update}
use malipo.Store.Error.{Result, ok}
use malipo.Store.Adapter.{StorageAdapter}
use malipo.Store.Safety.{IsSafeAdapter}
use malipo.Session.Machine.{Event, result_code_to_event, query_result_code_to_event}
use malipo.Session.Trace.{Call, create, fire, consume, expire, confirms, any_confirms}
use malipo.Session.Trace.Runs.{is_success}
use malipo.Session.Trace.Release.{paid, release_needs_success}
use malipo.X402.{Response402, Gate}
use malipo.Callback.{FloatOps, StkCallback}
use malipo.Wiring.Service.{Step, gated, called_back, timed_out, ticked, served_in}
use malipo.Wiring.Service.Steps.{Reports, Admits, after_all-Accounts}

is_zero : (code : ℤ) → eqb_ℤ code (pos 0) ≡ true → code ≡ pos 0
is_zero (pos n) h = ground arith
is_zero (negsuc n) h = absurd (ground arith)

module _ (sid : String) where
  -- A call that reports no success of the session.
  abbrev pub Silent : Call → Type 0
  Silent c = confirms sid c ≡ false

  other_calls-Silent : (c : Call) → is_success c ≡ false → Silent c
  other_calls-Silent (create s) h = refl
  other_calls-Silent (fire j from e u) h = event_Silent j from e u h
    where
      event_Silent :
          (j : String) (from : State) (e : Event) (u : Option Update)
          → is_success (fire j from e u) ≡ false
          → Silent (fire j from e u)
      event_Silent j from e u h = ground arith
  other_calls-Silent (consume now j) h = refl
  other_calls-Silent (expire t) h = refl

  callback-Silent : (code : ℤ) → code ≢ pos 0 → Reports Silent (result_code_to_event code)
  unfolding result_code_to_event
  callback-Silent code h id from u = elim (Bool-cases (eqb_ℤ code (pos 0))) [
    | inl zero_code ↦ absurd (h (is_zero code zero_code))
    | inr other ↦ ground arith
  ]

  query-Silent : (code : String) → code ≢ "0" → Reports Silent (query_result_code_to_event code)
  unfolding query_result_code_to_event
  query-Silent code h id from u = ground (arith, eq_iff code "0")

  any_confirms-Silent : (calls : List Call) → All Silent calls → any_confirms sid calls ≡ false
  any_confirms-Silent [] h = refl
  any_confirms-Silent (c ∷ calls) h = ground (arith, h.0, any_confirms-Silent calls h.1)

module _ (A : StorageAdapter) (S : IsSafeAdapter A) (F : FloatOps)
    (decode : Bytes → Option (StkCallback F)) (marshal : Response402 → Result String) (g : Gate)
    (sid : String) where
  open S use {IsValid, state_of}

  -- A step in which nothing can report the success of the session: the other goroutines do not, a callback
  -- has another result code than 0, and no query is answered with "0".
  abbrev pub IsSilent : Step F → Type 0
  IsSilent (gated auth r id now others) = All (Silent sid) others
  IsSilent (called_back r others) =
      All (Silent sid) others
      × ((cb : StkCallback F) → decode r.body ≡ some cb → cb.result_code ≢ pos 0)
  IsSilent (timed_out id) = Unit
  IsSilent (ticked auth now later others rest) =
      ((s : Session) → All (Silent sid) (others s))
      × All (Silent sid) rest
      × ((c code desc : String)
          → auth.query_stk_status g.manager.shortcode g.manager.passkey c ≡ ok (code, desc)
          → code ≢ "0")

  IsSilent-Admits :
      (s : Step F)
      → IsSilent s
      → Admits A (Silent sid) (other_calls-Silent sid) F decode marshal g sid s
  IsSilent-Admits (gated auth r id now others) h = h
  IsSilent-Admits (called_back r others) h =
      (h.0, λ cb p. callback-Silent sid cb.result_code (h.1 cb p))
  IsSilent-Admits (timed_out id) h = tt
  IsSilent-Admits (ticked auth now later others rest) h =
      (h.0, h.1, λ c code desc p. query-Silent sid code (h.2 c code desc p))

  All-Admits :
      (steps : List (Step F))
      → All IsSilent steps
      → All (Admits A (Silent sid) (other_calls-Silent sid) F decode marshal g sid) steps
  All-Admits [] h = tt
  All-Admits (s ∷ steps) h = (IsSilent-Admits s h.0, All-Admits steps h.1)

  -- Over any safe adapter, from a valid store in which a session is unpaid or absent: in a
  -- sequence of steps without a callback of result code 0, without a query answered with "0", and without
  -- a success that other goroutines report of the session, no request with its ID is served, whatever the
  -- gate requests, the timers and the ticks.
  pub served_needs_report :
      (steps : List (Step F)) (db : A.Db)
      → IsValid db
      → paid (state_of db sid) ≡ false
      → All IsSilent steps
      → served_in A F decode marshal g sid steps db ≡ 0
  served_needs_report steps db v unpaid h =
      let x =
        after_all-Accounts A (Silent sid) (other_calls-Silent sid) F decode marshal g sid steps
          (All-Admits steps h) db in
      let silent = any_confirms-Silent sid x.calls x.allowed in
      ground (arith, x.covered, release_needs_success A S x.calls db sid v unpaid)
