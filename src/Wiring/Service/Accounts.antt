-- ===== src/Wiring/Service/Accounts.antt =====
-- A session ID that is served has been consumed by an atomic call: the redemption of x402/x402.go.
use malipo.Base.{
  ℕ, ◌+◌, ◌≤◌, String, ◌≡◌, sym, ◌∙◌, ap, subst, inl, inr, List, [], ◌∷◌, ◌++◌, arith,
}
use malipo.Base.{false, refl, All, str_eq, eq_refl, if◌then◌else◌, Bool-cases}
use malipo.Store.State.{confirmed, to_string}
use malipo.Store.Session.{Time}
use malipo.Store.Error.{Result-cases}
use malipo.Store.Adapter.{StorageAdapter}
use malipo.Session.Manager.{get_status, consume_if_confirmed}
use malipo.Session.Trace.{Call, consume, perform, run, releases_in}
use malipo.Session.Trace.Runs.{
  is_success, All-append, IsRun, no_calls, run_of, run-append, releases_in-append,
}
use malipo.X402.{release, redeem}
use malipo.X402.Release.{release_store}
use malipo.Wiring.Service.{is_served}

module _ (A : StorageAdapter) (P : Call → Type 0) (free : (c : Call) → is_success c ≡ false → P c)
    (sid : String) where
  -- A run of atomic calls in which the session is released for each time that it is served.
  pub record Accounts (before after : A.Db) (count : ℕ) : Type 0 where
    pub calls : List Call
    pub reached : after ≡ run A calls before
    pub allowed : All P calls
    pub covered : count ≤ releases_in A sid calls before

  pub unserved : {before after : A.Db} → IsRun A P before after → Accounts before after 0
  unserved r = record {
    calls = r.calls;
    reached = r.reached;
    allowed = r.allowed;
    covered = omega arith;
  }

  pub Accounts-trans :
      {a b c : A.Db} {m n : ℕ} → Accounts a b m → Accounts b c n → Accounts a c (m + n)
  Accounts-trans {a} {n = n} x y = record {
    calls = x.calls ++ y.calls;
    reached = y.reached ∙ ap (run A y.calls) x.reached ∙ sym (run-append A x.calls y.calls a);
    allowed = All-append P x.calls y.calls x.allowed y.allowed;
    covered = omega (
      arith,
      x.covered,
      releases_in-append A sid x.calls y.calls a,
      subst (λ d. n ≤ releases_in A sid y.calls d) x.reached y.covered,
    );
  }

  after_run : {a b c : A.Db} {n : ℕ} → IsRun A P a b → Accounts b c n → Accounts a c n
  after_run {n = n} r x = subst (Accounts _ _) (omega arith) (Accounts-trans (unserved r) x)

  -- The consumption behind a served request is one release.
  consumed_once :
      (now : Time) (db : A.Db)
      → Accounts db
          (release A (consume_if_confirmed A now sid db)).1
          (if is_served (release A (consume_if_confirmed A now sid db)).0 then 1 else 0)
  unfolding consume_if_confirmed run perform releases_in
  consumed_once now db = elim (Result-cases (A.consume_if_confirmed now sid db).0) [
    | inl (e, h) ↦ record {
      calls = consume now sid ∷ [];
      reached = release_store A (consume_if_confirmed A now sid db);
      allowed = (free (consume now sid) refl, tt);
      covered = rw h (omega arith);
    }
    | inr (s, h) ↦ record {
      calls = consume now sid ∷ [];
      reached = release_store A (consume_if_confirmed A now sid db);
      allowed = (free (consume now sid) refl, tt);
      covered = rw (h, eq_refl sid) (omega arith);
    }
  ]

  pub redeem-Accounts :
      (now : Time) (others : List Call)
      → All P others
      → (db : A.Db)
      → Accounts db
          (redeem A sid now (run A others) db).1
          (if is_served (redeem A sid now (run A others) db).0 then 1 else 0)
  unfolding redeem
  redeem-Accounts now others allowed db = elim (Result-cases (get_status A sid db)) [
    | inl (e, h) ↦ rw (redeem, h) (unserved (no_calls A P db))
    | inr ((t, ends), h) ↦ elim (Bool-cases (str_eq t (to_string confirmed))) [
      | inl ready ↦
          rw (redeem, h, ready)
            (after_run (run_of A P others allowed db) (consumed_once now (run A others db)))
      | inr unready ↦ rw (redeem, h, unready) (unserved (no_calls A P db))
    ]
  ]

pub Accounts-IsRun :
    (A : StorageAdapter) (P : Call → Type 0) (free : (c : Call) → is_success c ≡ false → P c)
    (sid : String) {before after : A.Db} {n : ℕ}
    → Accounts A P free sid before after n
    → IsRun A P before after
Accounts-IsRun A P free sid x = record { calls = x.calls; reached = x.reached; allowed = x.allowed }
