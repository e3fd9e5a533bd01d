-- ===== src/Sqlite/Cleanup.antt =====
-- session/ttl.go over SQLite: what a tick of the cleanup goroutine leaves in the table.
use malipo.Base.{String, ◌≡◌, refl, inl, inr, true, Option, none, some, List, arith}
use malipo.Base.{Option-cases}
use malipo.Base.Int.{ltb_ℤ}
use malipo.Base.Map.{lookup}
use malipo.Base.Holds.{Holds, Holds-replaced, Holds-fresh, Holds-inserted}
use malipo.Store.State.{State, is_terminal}
use malipo.Store.Session.{Session, Update, Time}
use malipo.Store.Error.{ok}
use malipo.Store.Expiry.{IsResolving}
use malipo.Sqlite.Clock.{TimeText, floor_second}
use malipo.Sqlite.Defs.{
  Row, Table, create, insert_row, new_row, coalesce, spent_row, transition, consume_if_confirmed,
  expire_stale,
}
use malipo.Sqlite.Rows.{consume_row_cases}
use malipo.Sqlite.Invariant.{transition_cases}
use malipo.Sqlite.Keeps.{expire_row, lookup-expire_rows}
use malipo.Sqlite.Reads.{row_state}
use malipo.Sqlite.Contract.{sqlite_adapter}
use malipo.Session.Token.{TokenProvider}
use malipo.Session.Manager.{Config, cleanup_tick}
use malipo.Session.Trace.{Call, run}
use malipo.Session.Trace.Expiry.{tick_resolves}

module _ (T : TimeText) where
  abbrev pub expiry : Row T → T.Text
  expiry row = row.expires_at

  module _ (k : String) (x : Time) where
    -- A row with the text of a given expiry.
    abbrev pub HasExpiry : Table T → Type 0
    HasExpiry t = Holds expiry k (T.format x) t

    expiry-coalesce :
        (to : State) (u : Option Update) (row : Row T)
        → (coalesce T to u row).expires_at ≡ row.expires_at
    expiry-coalesce to none row = refl
    expiry-coalesce to (some u) row = refl

    pub create-HasExpiry :
        (s : Session) (t : Table T) → HasExpiry t → HasExpiry (create T none s t).1
    unfolding create
    create-HasExpiry s t h = elim (Option-cases (lookup s.id t)) [
      | inl fresh ↦
          rw (create, insert_row, fresh)
            (Holds-fresh expiry k (T.format x) s.id (new_row T s) t fresh h)
      | inr (row, taken) ↦ rw (create, insert_row, taken) h
    ]

    pub transition-HasExpiry :
        (id : String) (from to : State) (u : Option Update) (t : Table T)
        → HasExpiry t
        → HasExpiry (transition T none id from to u t).1
    transition-HasExpiry id from to u t h = elim (transition_cases T id from to u t) [
      | inl (e, away) ↦ rw e h
      | inr (row, p, at, e) ↦ rw e (
          Holds-replaced expiry k (T.format x) id row (coalesce T to u row) t p
            (expiry-coalesce to u row) h)
    ]

    pub consume-HasExpiry :
        (now : Time) (id : String) (t : Table T)
        → HasExpiry t
        → HasExpiry (consume_if_confirmed T now none none id t).1
    consume-HasExpiry now id t h = elim (consume_row_cases T now id t) [
      | inl (y, e) ↦ rw e h
      | inr (row, p, e) ↦
          rw e (Holds-replaced expiry k (T.format x) id row (spent_row T now row) t p refl h)
    ]

    pub expire-HasExpiry :
        (before : Time) (t : Table T) → HasExpiry t → HasExpiry (expire_stale T none before t).1
    unfolding expire_stale
    expire-HasExpiry before t h = record {
      value = expire_row T (T.format before) h.value;
      found = rw (lookup-expire_rows T (T.format before) k t, h.found) refl;
      held = ground (arith, h.held);
    }

    pub expire_found :
        (before : Time) (t : Table T)
        → HasExpiry t
        → ltb_ℤ (floor_second x) (floor_second before) ≡ true
        → (s : State) × (row_state T (expire_stale T none before t).1 k ≡ some s)
          × (is_terminal s ≡ true)
    unfolding expire_stale is_terminal
    expire_found before t h late = (
      (expire_row T (T.format before) h.value).state,
      rw (lookup-expire_rows T (T.format before) k t, h.found) refl,
      ground (arith, h.held, T.ltb-format x before),
    )

  pub created_has :
      (s : Session) (t : Table T)
      → (create T none s t).0 ≡ ok tt
      → HasExpiry s.id s.expires_at (create T none s t).1
  unfolding create new_row
  created_has s t done = elim (Option-cases (lookup s.id t)) [
    | inl fresh ↦
        rw (create, insert_row, fresh)
          (Holds-inserted expiry s.id (T.format s.expires_at) (new_row T s) t refl)
    | inr (row, taken) ↦ absurd (ground arith)
  ]

-- SQLite holds instants in whole seconds.
unfoldable pub sqlite_resolving : (T : TimeText) → IsResolving (sqlite_adapter T) (row_state T)
sqlite_resolving T = record {
  floor = floor_second;
  HasExpiry = HasExpiry T;
  create_has = λ s t done. created_has T s t done;
  create-HasExpiry = λ s {k} {x} t h. create-HasExpiry T k x s t h;
  transition-HasExpiry = λ id from to u {k} {x} t h. transition-HasExpiry T k x id from to u t h;
  consume-HasExpiry = λ now id {k} {x} t h. consume-HasExpiry T k x now id t h;
  expire-HasExpiry = λ before {k} {x} t h. expire-HasExpiry T k x before t h;
  expire_resolves = λ before {k} {x} t h late. expire_found T k x before t h late;
}

module _ (T : TimeText) (cfg : Config) (auth : TokenProvider) (now later : Time)
    (others : Session → List Call) (rest : List Call) (t : Table T) where
  -- A tick of the cleanup goroutine over SQLite, with a driver that does not fail, resolves every row
  -- whose expiry lies in an earlier second than the instant of the expiry pass: the row is still there,
  -- and its state is terminal, whatever the recovery queries answer and whatever atomic calls others make.
  pub cleanup_tick_resolves_row :
      (k : String) (row : Row T) (x : Time)
      → lookup k t ≡ some row
      → row.expires_at ≡ T.format x
      → ltb_ℤ (floor_second x) (floor_second later) ≡ true
      → (s : State) × (row_state T
            (cleanup_tick
              (sqlite_adapter T)
              cfg
              auth
              now
              later
              (λ s. run (sqlite_adapter T) (others s))
              (run (sqlite_adapter T) rest)
              t)
            k
          ≡ some s)
        × (is_terminal s ≡ true)
  unfolding sqlite_resolving
  cleanup_tick_resolves_row k row x p ends late =
      tick_resolves (sqlite_adapter T) (row_state T) (sqlite_resolving T) k x cfg auth others rest
        now later t (record { value = row; found = p; held = ends }) late
