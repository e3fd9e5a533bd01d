-- ===== src/Wiring/Service/AnySteps.antt =====
-- Any sequence of steps of the program is a run of atomic calls.
use malipo.Base.{String, Option, List, [], ◌∷◌, All}
use malipo.Store.Session.{Bytes}
use malipo.Store.Error.{Result}
use malipo.Store.Adapter.{StorageAdapter}
use malipo.Session.Trace.Runs.{AnyCall, All-AnyCall, IsRun}
use malipo.X402.{Response402, Gate}
use malipo.Callback.{FloatOps, StkCallback}
use malipo.Wiring.Service.{Step, gated, called_back, timed_out, ticked, after_all, served_in}
use malipo.Wiring.Service.Accounts.{Accounts, Accounts-IsRun}
use malipo.Wiring.Service.Steps.{Admits, after_all-Accounts}

module _ (A : StorageAdapter) (F : FloatOps) (decode : Bytes → Option (StkCallback F))
    (marshal : Response402 → Result String) (g : Gate) (sid : String) where
  step-Admits : (s : Step F) → Admits A AnyCall (λ c h. tt) F decode marshal g sid s
  step-Admits (gated auth r id now others) = All-AnyCall others
  step-Admits (called_back r others) = (All-AnyCall others, λ cb h id from u. tt)
  step-Admits (timed_out id) = tt
  step-Admits (ticked auth now later others rest) =
      (λ s. All-AnyCall (others s), All-AnyCall rest, λ c code desc h id from u. tt)

  All-Admits :
      (steps : List (Step F)) → All (Admits A AnyCall (λ c h. tt) F decode marshal g sid) steps
  All-Admits [] = tt
  All-Admits (s ∷ steps) = (step-Admits s, All-Admits steps)

  pub steps-Accounts :
      (steps : List (Step F)) (db : A.Db)
      → Accounts A AnyCall
          (λ c h. tt)
          sid
          db
          (after_all A F decode marshal g steps db)
          (served_in A F decode marshal g sid steps db)
  steps-Accounts steps db =
      after_all-Accounts A AnyCall (λ c h. tt) F decode marshal g sid steps (All-Admits steps) db

  pub steps-IsRun :
      (steps : List (Step F)) (db : A.Db)
      → IsRun A AnyCall db (after_all A F decode marshal g steps db)
  steps-IsRun steps db = Accounts-IsRun A AnyCall (λ c h. tt) sid (steps-Accounts steps db)
