-- ===== src/Memory/Index.antt =====
-- store/memory/memory.go: the index of the checkout IDs over a `Create` and a `Transition`.
use malipo.Base.{String, ◌≡◌, refl, inl, inr, false, none, some, arith}
use malipo.Base.{Option-cases, eq_iff, eq_refl, str_eq}
use malipo.Base.Map.{lookup, lookup-insert}
use malipo.Store.State.{State, is_terminal}
use malipo.Store.Session.{Session, Update}
use malipo.Store.Error.{ok, err, not_found}
use malipo.Memory.Defs.{
  Memory, create, get_by_checkout_id, write_update, apply_transition, transition,
}
use malipo.Memory.Guards.{create_cases, transition_passed, lookup-apply_transition}
use malipo.Memory.Invariant.{IsValid}

-- In a valid store a checkout ID that leads to no session is not in the index.
unindexed :
    (c : String) (m : Memory)
    → IsValid m
    → get_by_checkout_id c m ≡ err not_found
    → lookup c m.by_checkout ≡ none
unfolding get_by_checkout_id
unindexed c m v h = elim (Option-cases (lookup c m.by_checkout)) [
  | inl absent ↦ absent
  | inr (id, p) ↦ elim (Option-cases (lookup id m.sessions)) [
    | inl missing ↦ absurd (ground (arith, v.indexed c id p))
    | inr (s, q) ↦ absurd (ground arith)
  ]
]

pub create_unindexed :
    (c : String) (s : Session) (m : Memory)
    → IsValid m
    → get_by_checkout_id c m ≡ err not_found
    → str_eq s.checkout_request_id c ≡ false
    → get_by_checkout_id c (create s m).1 ≡ err not_found
unfolding get_by_checkout_id
create_unindexed c s m v h other = elim (create_cases s m) [
  | inl (t, taken, e) ↦ rw e h
  | inr (fresh, e) ↦ rw e (ground (arith, unindexed c m v h))
]

pub transition_indexed :
    (id : String) (from to : State) (u : Update) (c : String) (m : Memory) {s : Session}
    → IsValid m
    → is_terminal from ≡ false
    → lookup id m.sessions ≡ some s
    → s.state ≡ from
    → u.checkout_request_id ≡ some c
    → (t : Session) × (get_by_checkout_id c (transition id from to (some u) m).1 ≡ ok t)
      × (t.id ≡ id)
      × (t.state ≡ to)
unfolding get_by_checkout_id apply_transition
transition_indexed id from to u c m {s} v live p at set =
    rw (transition_passed id from to (some u) m s p at live) (
      record (write_update (some u) s m).0 { state = to },
      ground (
        arith,
        set,
        lookup-insert c c s.id m.by_checkout,
        eq_refl c,
        lookup-apply_transition id from to (some u) m s s.id,
        v.keyed id s p,
        eq_iff id s.id,
      ),
      v.keyed id s p,
      refl,
    )
