-- ===== src/Session/Trace/Expiry.antt =====
-- session/ttl.go: the cleanup goroutine resolves every session that is past its expiry.
use malipo.Base.{String, ◌≡◌, inl, inr, true, Option, some, List, [], ◌∷◌}
use malipo.Base.{Option-cases}
use malipo.Base.Int.{ltb_ℤ}
use malipo.Store.State.{State, created, is_terminal}
use malipo.Store.Session.{Session, Update, Time}
use malipo.Store.Adapter.{StorageAdapter}
use malipo.Store.Expiry.{IsResolving}
use malipo.Session.Token.{TokenProvider}
use malipo.Session.Machine.{Event, next_state}
use malipo.Session.Manager.{Config, transition, run_recovery, cleanup_tick}
use malipo.Session.Manager.Transition.{transition_on_table, transition_off_table}
use malipo.Session.Trace.{Call, create, fire, consume, expire, perform, run}
use malipo.Session.Trace.Runs.{AnyCall, All-AnyCall, IsRun}
use malipo.Session.Trace.Methods.{run_recovery-IsRun}

module _ (A : StorageAdapter) (state_of : A.Db → String → Option State) (R : IsResolving A state_of)
    (k : String) (x : Time) where
  pub fire-HasExpiry :
      (id : String) (from : State) (e : Event) (u : Option Update) (db : A.Db)
      → R.HasExpiry k x db
      → R.HasExpiry k x (transition A id from e u db).1
  fire-HasExpiry id from e u db h = elim (Option-cases (next_state from e)) [
    | inl off ↦ rw (transition_off_table A id from e u db off) h
    | inr (to, p) ↦
        rw (transition_on_table A id from e u db p) (R.transition-HasExpiry id from to u db h)
  ]

  pub run-HasExpiry :
      (calls : List Call) (db : A.Db) → R.HasExpiry k x db → R.HasExpiry k x (run A calls db)
  unfolding run perform
  run-HasExpiry [] db h = h
  run-HasExpiry (create s ∷ calls) db h =
      run-HasExpiry calls _ (R.create-HasExpiry (record s { state = created }) db h)
  run-HasExpiry (fire id from e u ∷ calls) db h =
      run-HasExpiry calls _ (fire-HasExpiry id from e u db h)
  run-HasExpiry (consume now id ∷ calls) db h =
      run-HasExpiry calls _ (R.consume-HasExpiry now id db h)
  run-HasExpiry (expire t ∷ calls) db h = run-HasExpiry calls _ (R.expire-HasExpiry t db h)

  pub reached-HasExpiry :
      (P : Call → Type 0) {before after : A.Db}
      → IsRun A P before after
      → R.HasExpiry k x before
      → R.HasExpiry k x after
  reached-HasExpiry P path h = rw path.reached (run-HasExpiry path.calls _ h)

  -- A tick after the expiry, whatever the recovery pass does before its expiry pass.
  pub tick_resolves :
      (cfg : Config) (auth : TokenProvider) (others : Session → List Call) (rest : List Call)
      (now later : Time) (db : A.Db)
      → R.HasExpiry k x db
      → ltb_ℤ (R.floor x) (R.floor later) ≡ true
      → (s : State) × (state_of
            (cleanup_tick A cfg auth now later (λ s. run A (others s)) (run A rest) db)
            k
          ≡ some s)
        × (is_terminal s ≡ true)
  unfolding cleanup_tick
  tick_resolves cfg auth others rest now later db h late =
      R.expire_resolves later (run A rest (run_recovery A cfg auth now (λ s. run A (others s)) db))
        (run-HasExpiry rest _ (
          reached-HasExpiry AnyCall
            (run_recovery-IsRun A AnyCall (λ c g. tt) cfg auth others (λ s. All-AnyCall (others s))
              (λ c code desc g s. tt) now db)
            h))
        late
