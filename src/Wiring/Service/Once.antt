-- ===== src/Wiring/Service/Once.antt =====
-- How often a session ID is served, in any sequence of steps.
use malipo.Base.{◌+◌, ◌≤◌, String, Option, List, arith}
use malipo.Store.Session.{Bytes}
use malipo.Store.Error.{Result}
use malipo.Store.Adapter.{StorageAdapter}
use malipo.Store.Safety.{IsSafeAdapter}
use malipo.Session.Trace.Release.{spent, releases_once}
use malipo.X402.{Response402, Gate}
use malipo.Callback.{FloatOps, StkCallback}
use malipo.Wiring.Service.{Step, served_in}
use malipo.Wiring.Service.AnySteps.{steps-Accounts}

module _ (A : StorageAdapter) (S : IsSafeAdapter A) (F : FloatOps)
    (decode : Bytes → Option (StkCallback F)) (marshal : Response402 → Result String) (g : Gate)
    (sid : String) where
  open S use {IsValid, state_of}

  -- Over any safe adapter, from a valid store: in any sequence of gate requests, callbacks,
  -- timers and cleanup ticks, with any atomic calls by others within each step, at most one request that
  -- carries a given session ID is served, and none if the session was consumed before.
  pub served_once :
      (steps : List (Step F)) (db : A.Db)
      → IsValid db
      → served_in A F decode marshal g sid steps db + spent (state_of db sid) ≤ 1
  served_once steps db v =
      let x = steps-Accounts A F decode marshal g sid steps db in
      omega (
        arith,
        x.covered,
        (releases_once A S x.calls db sid v).0,
        (releases_once A S x.calls db sid v).1,
      )
