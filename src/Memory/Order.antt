-- ===== src/Memory/Order.antt =====
-- store/memory/memory.go: Go leaves the order in which `range` visits the entries of a map open. What the
-- methods return and leave for one order beside what they do for another.
use mathlib.Core.List.{Permᴰ}
use malipo.Base.{String, ◌≡◌, refl, sym, ap, inl, inr, Option, none, some, List, arith}
use malipo.Base.{Bool-cases, Option-cases}
use malipo.Base.Map.{Map, lookup}
use malipo.Base.Orders.{SameEntries, lookup-perm, insert-SameEntries, map_values-perm}
use malipo.Store.State.{State, is_terminal, state_eq, confirmed, consumed}
use malipo.Store.Session.{Session, Update, Time}
use malipo.Store.Error.{Result, ok}
use malipo.Memory.Defs.{
  Memory, create, get, get_by_checkout_id, write_fields, index_checkout, apply_transition,
  transition, consume_if_confirmed, expire_one, expire_stale, pending_in, list_pending,
}
use malipo.Memory.Sweep.{expire_from-count, Distinct-expire_from}
use malipo.Memory.Reordered.{pending_in-perm, stale_in-perm, expire_from-sessions}

-- Two stores that differ in the order of their entries at most.
pub record SameStore (m n : Memory) : Type 0 where
  pub sessions : SameEntries m.sessions n.sessions
  pub by_checkout : SameEntries m.by_checkout n.by_checkout

-- The same answer, and stores that differ in the order of their entries at most.
abbrev pub SameAnswer : {A : Type 0} → Result A × Memory → Result A × Memory → Type 0
SameAnswer (r, m) (q, n) = (r ≡ q) × SameStore m n

index-SameEntries :
    (c : Option String) (id : String) {i j : Map String}
    → SameEntries i j
    → SameEntries (index_checkout c id i) (index_checkout c id j)
index-SameEntries none id s = s
index-SameEntries (some c) id s = insert-SameEntries c id s

module _ {m n : Memory} (s : SameStore m n) where
  same_session : (id : String) → lookup id m.sessions ≡ lookup id n.sessions
  same_session id = sym ((lookup-perm s.sessions.entries s.sessions.distinct).1 id)

  same_checkout : (c : String) → lookup c m.by_checkout ≡ lookup c n.by_checkout
  same_checkout c = sym ((lookup-perm s.by_checkout.entries s.by_checkout.distinct).1 c)

  create-SameStore : (x : Session) → SameAnswer (create x m) (create x n)
  unfolding create
  create-SameStore x = elim (Option-cases (lookup x.id m.sessions)) [
    | inl fresh ↦
        rw (create, sym (same_session x.id), fresh)
          (
            refl,
            record { sessions = insert-SameEntries x.id x s.sessions; by_checkout = s.by_checkout },
          )
    | inr (y, taken) ↦ rw (create, sym (same_session x.id), taken) (refl, s)
  ]

  apply-SameStore :
      (id : String) (to : State) (u : Option Update) (x : Session)
      → SameStore (apply_transition id to u x m) (apply_transition id to u x n)
  unfolding apply_transition
  apply-SameStore id to none x = record {
    sessions = insert-SameEntries id (record x { state = to }) s.sessions;
    by_checkout = s.by_checkout;
  }
  apply-SameStore id to (some u) x = record {
    sessions = insert-SameEntries id (record (write_fields u x) { state = to }) s.sessions;
    by_checkout = index-SameEntries u.checkout_request_id x.id s.by_checkout;
  }

  transition-SameStore :
      (id : String) (from to : State) (u : Option Update)
      → SameAnswer (transition id from to u m) (transition id from to u n)
  unfolding transition
  transition-SameStore id from to u = elim (Option-cases (lookup id m.sessions)) [
    | inl absent ↦ rw (transition, sym (same_session id), absent) (refl, s)
    | inr (x, at) ↦
        rw (transition, sym (same_session id), at)
          (elim (Bool-cases (is_terminal x.state)) [
            | inl ended ↦ rw ended (refl, s)
            | inr live ↦ elim (Bool-cases (state_eq x.state from)) [
              | inl met ↦ rw (live, met) (refl, apply-SameStore id to u x)
              | inr unmet ↦ rw (live, unmet) (refl, s)
            ]
          ])
  ]

  consume-SameStore :
      (now : Time) (id : String)
      → SameAnswer (consume_if_confirmed now id m) (consume_if_confirmed now id n)
  unfolding consume_if_confirmed
  consume-SameStore now id = elim (Option-cases (lookup id m.sessions)) [
    | inl absent ↦ rw (consume_if_confirmed, sym (same_session id), absent) (refl, s)
    | inr (x, at) ↦
        rw (consume_if_confirmed, sym (same_session id), at)
          (elim (Bool-cases (state_eq x.state consumed)) [
            | inl spent ↦ rw spent (refl, s)
            | inr unspent ↦ elim (Bool-cases (state_eq x.state confirmed)) [
              | inl met ↦
                  rw (unspent, met)
                    (
                      refl,
                      record {
                        sessions =
                            insert-SameEntries id
                              (record x { state = consumed; consumed_at = some now }) s.sessions;
                        by_checkout = s.by_checkout;
                      },
                    )
              | inr unmet ↦ rw (unspent, unmet) (refl, s)
            ]
          ])
  ]

  expire-SameStore : (before : Time) → SameAnswer (expire_stale before m) (expire_stale before n)
  unfolding expire_stale
  expire-SameStore before = (
    ap ok (
        omega (
          arith,
          expire_from-count before m.sessions 0,
          expire_from-count before n.sessions 0,
          stale_in-perm before s.sessions.entries,
        )),
    record {
      sessions = record {
        entries =
            rw (expire_from-sessions before m.sessions 0, expire_from-sessions before n.sessions 0)
              (map_values-perm (expire_one before) s.sessions.entries);
        distinct = Distinct-expire_from before m.sessions 0 s.sessions.distinct;
      };
      by_checkout = s.by_checkout;
    },
  )

  get_by_checkout-same : (c : String) → get_by_checkout_id c m ≡ get_by_checkout_id c n
  unfolding get_by_checkout_id
  get_by_checkout-same c = elim (Option-cases (lookup c m.by_checkout)) [
    | inl absent ↦ rw (get_by_checkout_id, sym (same_checkout c), absent) refl
    | inr (id, at) ↦ rw (get_by_checkout_id, sym (same_checkout c), at, same_session id) refl
  ]

-- Two stores that hold the same entries, no key twice, in whatever orders their maps are visited, answer each of the
-- seven methods alike, for any arguments: with the same error, the same session or the same number
-- of expired sessions, `ListPending` with the same sessions in some order; and the stores that they
-- leave hold the same entries again.
pub methods-SameStore :
    (m n : Memory) (x : Session) (id c : String) (from to : State) (u : Option Update)
    (now before : Time)
    → SameStore m n
    → SameAnswer (create x m) (create x n)
      × (get id m ≡ get id n)
      × (get_by_checkout_id c m ≡ get_by_checkout_id c n)
      × SameAnswer (transition id from to u m) (transition id from to u n)
      × SameAnswer (consume_if_confirmed now id m) (consume_if_confirmed now id n)
      × SameAnswer (expire_stale before m) (expire_stale before n)
      × ((l k : List Session) × (list_pending before m ≡ ok l)
          × (list_pending before n ≡ ok k)
          × Permᴰ l k)
unfolding get list_pending
methods-SameStore m n x id c from to u now before s = (
  create-SameStore s x,
  rw (same_session s id) refl,
  get_by_checkout-same s c,
  transition-SameStore s id from to u,
  consume-SameStore s now id,
  expire-SameStore s before,
  (
    pending_in before m.sessions,
    pending_in before n.sessions,
    refl,
    refl,
    pending_in-perm before s.sessions.entries,
  ),
)
