-- ===== src/Memory/Pointers/Runs.antt =====
-- store/memory/memory.go and its callers: a run through pointers is a run over values.
use mathlib.Core.List.{Memᴰ}
use malipo.Base.{ℕ, ◌≡◌, refl, sym, ap, ◌∙◌, subst, Option}
use malipo.Base.{List, [], ◌∷◌, ◌++◌, All}
use malipo.Base.Map.{lookup}
use malipo.Base.Values.{Without, map_values-other}
use malipo.Store.Session.{Session}
use malipo.Store.Error.{Result, ok, err}
use malipo.Memory.Defs as Plain
use malipo.Memory.Heap.{read, PointerSession, Heap, Allocated, overwrite}
use malipo.Memory.Pointers.{
  new_memory_adapter, values, PointerMemory, get, get_by_checkout_id, consume_if_confirmed,
  list_pending,
}
use malipo.Memory.Pointers.Callers.{
  World, Step, Reaches, allocates, writes, gets, finds, lists, done, after, creates, transitions,
  consumes, expires, Call, perform, perform_all, calls_of, given, given_all, Owned, IsApart,
}
use malipo.Memory.Pointers.Values.{
  on_read, values-alloc, create-values, get-values, get_by_checkout-values, transition-values,
}
use malipo.Memory.Pointers.Spend.{consume-values}
use malipo.Memory.Pointers.Scans.{on_list, expire-values, list_pending-values}
use malipo.Memory.Pointers.Owners.{
  alloc-IsApart, overwrite-IsApart, create-IsApart, copied-IsApart, find-IsApart,
  transition-IsApart,
}
use malipo.Memory.Pointers.Sweeps.{consume-IsApart, expire-IsApart, list-IsApart}

Step-IsApart : {v w : World} {c : Option Call} → Step v c w → IsApart v → IsApart w
unfolding get
Step-IsApart {v} (allocates s a) i = alloc-IsApart s v.memory v.own a i
Step-IsApart {v} (writes {p = p} s _ a) i = overwrite-IsApart p s v.memory v.own a i
Step-IsApart {v} (creates {p = p} _) i = create-IsApart p v.memory v.own i
Step-IsApart {v} (gets id) i = copied-IsApart (lookup id v.memory.sessions) v.memory v.own i
Step-IsApart {v} (finds c) i = find-IsApart c v.memory v.own i
Step-IsApart {v} (transitions id from to u a) i = transition-IsApart id from to u v.memory v.own a i
Step-IsApart {v} (consumes now id) i = consume-IsApart now id v.memory v.own i
Step-IsApart {v} (expires t) i = expire-IsApart t v.memory v.own i
Step-IsApart {v} (lists t) i = list-IsApart t v.memory v.own i

Memᴰ-All : (P : ℕ → Type 0) {p : ℕ} {own : List ℕ} → Memᴰ p own → All P own → P p
Memᴰ-All P (Memᴰ.head e) h = subst P (sym e) h.0
Memᴰ-All P (Memᴰ.tail at) h = Memᴰ-All P at h.1

given-memory : (r : Result ℕ × PointerMemory) (own : List ℕ) → (given r own).memory ≡ r.1
given-memory (ok p, m) own = refl
given-memory (err e, m) own = refl

read-memory :
    (r : Result ℕ × PointerMemory) (own : List ℕ) {s : Result Session × Plain.Memory}
    → on_read r ≡ s
    → values (given r own).memory ≡ s.1
read-memory r own e = ap values (given-memory r own) ∙ ap (λ x. x.1) e

-- A write to a session that is not one of a map slot.
values-owned :
    (p : ℕ) (s : PointerSession) (m : PointerMemory)
    → Without p m.sessions
    → values (record m { heap = overwrite p s m.heap }) ≡ values m
values-owned p s m w =
    rw
      (map_values-other (read m.heap) (read (overwrite p s m.heap)) p (λ q e. rw e refl) m.sessions
        w)
      refl

given_all-memory :
    (r : Result (List ℕ) × PointerMemory) (own : List ℕ)
    → values (given_all r own).memory ≡ (on_list r).1
given_all-memory (ok l, m) own = refl
given_all-memory (err e, m) own = refl

-- What the step does to the values is what its call does, if there is one.
Step-values :
    {v w : World} {c : Option Call}
    → Step v c w
    → IsApart v
    → values w.memory ≡ perform_all (calls_of c) (values v.memory)
unfolding get
Step-values {v} (allocates s a) i =
    rw (values-alloc s v.memory.heap v.memory.sessions i.valid.below) refl
Step-values {v} (writes {p = p} s at a) i =
    values-owned p s v.memory (Memᴰ-All (Owned v.memory) at i.owned).1
Step-values {v} (creates {p = p} _) i = ap (λ x. x.1) (create-values p v.memory i.valid)
Step-values {v} (gets id) i = read-memory (get id v.memory) v.own (get-values id v.memory i.valid)
Step-values {v} (finds c) i =
    read-memory (get_by_checkout_id c v.memory) v.own (get_by_checkout-values c v.memory i.valid)
Step-values {v} (transitions id from to u _) i =
    ap (λ x. x.1) (transition-values id from to u v.memory i.valid)
Step-values {v} (consumes now id) i =
    read-memory (consume_if_confirmed now id v.memory) v.own
      (consume-values now id v.memory i.valid)
Step-values {v} (expires t) i = ap (λ x. x.1) (expire-values t v.memory i.valid)
Step-values {v} (lists t) i =
    given_all-memory (list_pending t v.memory) v.own
    ∙ ap (λ x. x.1) (list_pending-values t v.memory i.valid)

perform_all-append :
    (cs ds : List Call) (m : Plain.Memory)
    → perform_all (cs ++ ds) m ≡ perform_all ds (perform_all cs m)
perform_all-append [] ds m = refl
perform_all-append (c ∷ cs) ds m = perform_all-append cs ds (perform c m)

-- From a store whose map slots have addresses of their own that no caller has, and whose pointers have
-- been allocated, as in a new one: however the methods and their callers' allocations and writes follow
-- one another, callers writing only to sessions that they allocated or were given, the map slots keep
-- addresses of their own that no caller has, and the values of the store at the end are those that the calls of the writing
-- methods leave, made in the same order over values: a write through a pointer that `Create` took
-- or that a method returned changes no stored session.
pub Reaches-perform :
    {v w : World} {calls : List Call}
    → Reaches v calls w
    → IsApart v
    → IsApart w × (values w.memory ≡ perform_all calls (values v.memory))
Reaches-perform done i = (i, refl)
Reaches-perform {v} (after {c = c} {calls = calls} step reaches) i =
    let (apart, e) = Reaches-perform reaches (Step-IsApart step i) in
    (
      apart,
      e
          ∙ ap (perform_all calls) (Step-values step i)
          ∙ sym (perform_all-append (calls_of c) calls (values v.memory)),
    )

-- The store that `NewMemoryAdapter` returns, whatever its callers have allocated before.
pub new_memory_adapter-IsApart :
    (h : Heap)
    → ((p : ℕ) → Allocated h.next_time (h.records p).consumed_at)
    → IsApart (record { memory = new_memory_adapter h; own = [] })
new_memory_adapter-IsApart h timed = record {
  valid = record { apart = tt; below = tt; timed = timed };
  owned = tt;
}
