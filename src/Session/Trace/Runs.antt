-- ===== src/Session/Trace/Runs.antt =====
-- What was done to a store, as a run of atomic calls.
use malipo.Base.{◌+◌, String, ◌≡◌, refl, sym, ◌∙◌, ap, List, [], ◌∷◌, ◌++◌, arith}
use malipo.Base.{Bool, true, false, All}
use malipo.Store.Adapter.{StorageAdapter}
use malipo.Session.Machine.{callback_success}
use malipo.Session.Trace.{Call, fire, perform, run, releases_in}

module _ (A : StorageAdapter) where
  pub run-append : (xs ys : List Call) (db : A.Db) → run A (xs ++ ys) db ≡ run A ys (run A xs db)
  unfolding run
  run-append [] ys db = refl
  run-append (c ∷ xs) ys db = run-append xs ys (perform A c db)

  pub releases_in-append :
      (id : String) (xs ys : List Call) (db : A.Db)
      → releases_in A id (xs ++ ys) db ≡ releases_in A id xs db + releases_in A id ys (run A xs db)
  unfolding run releases_in
  releases_in-append id [] ys db = omega arith
  releases_in-append id (c ∷ xs) ys db =
      ground (arith, releases_in-append id xs ys (perform A c db))

-- Whether a call reports the success of a payment.
abbrev pub is_success : Call → Bool
is_success (fire j from callback_success u) = true
is_success _ = false

pub All-append : (P : Call → Type 0) (xs ys : List Call) → All P xs → All P ys → All P (xs ++ ys)
All-append P [] ys h g = g
All-append P (c ∷ xs) ys h g = (h.0, All-append P xs ys h.1 g)

module _ (A : StorageAdapter) (P : Call → Type 0) where
  -- What was done to the store is a run of atomic calls, all of which have the property P.
  pub record IsRun (before after : A.Db) : Type 0 where
    pub calls : List Call
    pub reached : after ≡ run A calls before
    pub allowed : All P calls

  pub no_calls : (db : A.Db) → IsRun db db
  unfolding run
  no_calls db = record { calls = []; reached = refl; allowed = tt }

  pub run_of : (others : List Call) → All P others → (db : A.Db) → IsRun db (run A others db)
  run_of others h db = record { calls = others; reached = refl; allowed = h }

  pub one_call : (c : Call) → P c → (db : A.Db) → IsRun db (perform A c db)
  unfolding run
  one_call c h db = record { calls = c ∷ []; reached = refl; allowed = (h, tt) }

  pub IsRun-trans : {a b c : A.Db} → IsRun a b → IsRun b c → IsRun a c
  IsRun-trans {a} r q = record {
    calls = r.calls ++ q.calls;
    reached = q.reached ∙ ap (run A q.calls) r.reached ∙ sym (run-append A r.calls q.calls a);
    allowed = All-append P r.calls q.calls r.allowed q.allowed;
  }

-- The property of any call.
abbrev pub AnyCall : Call → Type 0
AnyCall c = Unit

pub All-AnyCall : (calls : List Call) → All AnyCall calls
All-AnyCall [] = tt
All-AnyCall (c ∷ calls) = (tt, All-AnyCall calls)
