-- ===== src/Wiring/Service.antt =====
-- The running program, over any adapter: requests to the gate, callbacks, the timers of sessions and the
-- ticks of the cleanup goroutine, in any order. `others` are the calls of the store that other goroutines
-- make while a step waits between two of its own, in a tick before the write for each listed session
-- and, as `rest`, before the expiry pass.
pub mod Accounts
pub mod Steps
pub mod AnySteps
pub mod Once
pub mod Reports
pub mod Pushed
pub mod Payment
pub mod Recovered
pub mod Resolved
use malipo.Base.{
  ℕ, suc, ◌+◌, String, Bool, true, false, ◌&&◌, Option, List, [], ◌∷◌, str_eq, if◌then◌else◌,
}
use malipo.Store.Session.{Session, Bytes, Time}
use malipo.Store.Error.{Result}
use malipo.Store.Adapter.{StorageAdapter}
use malipo.Session.Token.{TokenProvider}
use malipo.Session.Manager.{elapsed, expire_after, cleanup_tick}
use malipo.Session.Trace.{Call, run}
use malipo.X402.{Reply, served, Response402, Request, payment_header, Gate, serve_gated}
use malipo.Callback.{FloatOps, StkCallback, CallbackRequest, serve_callback}

-- A step with what the service answers to it, the ID for a new session, and its instants.
pub data Step (F : FloatOps) : Type 0 where
  gated : TokenProvider → Request → String → Time → List Call → Step F
  called_back : CallbackRequest F → List Call → Step F
  timed_out : String → Step F
  ticked : TokenProvider → Time → Time → (Session → List Call) → List Call → Step F

abbrev pub is_served : Reply → Bool
is_served served = true
is_served _ = false

module _ (A : StorageAdapter) (F : FloatOps) (decode : Bytes → Option (StkCallback F))
    (marshal : Response402 → Result String) (g : Gate) where
  unfoldable pub after : Step F → A.Db → A.Db
  after (gated auth r id now others) db =
      (serve_gated A marshal g auth r id now (run A others) db).1
  after (called_back r others) db = (serve_callback F A decode r (run A others) db).1
  after (timed_out id) db = expire_after A elapsed id db
  after (ticked auth now later others rest) db =
      cleanup_tick A g.manager auth now later (λ s. run A (others s)) (run A rest) db

  -- Whether a step runs the wrapped handler for a request that carries the session ID.
  unfoldable pub serves : String → Step F → A.Db → Bool
  serves sid (gated auth r id now others) db =
      str_eq (payment_header r) sid
      && is_served (serve_gated A marshal g auth r id now (run A others) db).0
  serves sid _ db = false

  unfoldable pub after_all : List (Step F) → A.Db → A.Db
  after_all [] db = db
  after_all (s ∷ steps) db = after_all steps (after s db)

  -- How many requests with the session ID are served.
  unfoldable pub served_in : String → List (Step F) → A.Db → ℕ
  served_in sid [] db = 0
  served_in sid (s ∷ steps) db =
      let rest = served_in sid steps (after s db) in if serves sid s db then suc rest else rest
