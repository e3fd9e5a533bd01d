-- ===== src/Session/Machine/Paths.antt =====
-- The state machine of session/state.go over sequences of events.
use mathlib.Core.List.{Memᴰ}
use malipo.Base.{
  ℕ, suc, ◌<◌, ◌≤◌, ◌≡◌, ◌↔◌, ◌⊎◌, inl, inr, refl, sym, Bool, true, false, Option, none, some, List,
  [], ◌∷◌, arith,
}
use malipo.Base.{if◌then◌else◌, is_some, Option-cases}
use malipo.Store.State.{State, created, stk_pushed, awaiting_pin, confirmed, consumed, is_terminal}
use malipo.Session.Machine.{Event, callback_success, consumed_event, stk_accepted, next_state}

-- An event that the table does not hold is refused and leaves the state.
abbrev pub moved : State → Option State → State
moved s none = s
moved s (some t) = t

unfoldable pub fire_all : State → List Event → State
fire_all s [] = s
fire_all s (e ∷ es) = fire_all (moved s (next_state s e)) es

-- How many of the events are accepted.
unfoldable pub accepted : State → List Event → ℕ
accepted s [] = 0
accepted s (e ∷ es) =
    let rest = accepted (moved s (next_state s e)) es in
    if is_some (next_state s e) then suc rest else rest

-- The most events that a session can still accept.
abbrev pub budget : State → ℕ
budget created = 4
budget stk_pushed = 3
budget awaiting_pin = 2
budget confirmed = 1
budget _ = 0

budget-next_state :
    (s : State) (e : Event) {t : State} → next_state s e ≡ some t → budget t < budget s
unfolding next_state
budget-next_state s e h = ground arith

-- The machine is acyclic: from each state no sequence of events, however long, has more accepted
-- events than the state's budget, which is 4 for a new session and 0 for a terminal one.
pub accepted_bounded : (s : State) (es : List Event) → accepted s es ≤ budget s
unfolding accepted
accepted_bounded s [] = omega arith
accepted_bounded s (e ∷ es) = elim (Option-cases (next_state s e)) [
  | inl refused ↦ rw refused (accepted_bounded s es)
  | inr (t, p) ↦ rw p (omega (arith, budget-next_state s e p, accepted_bounded t es))
]

-- The states without an outgoing transition are exactly those that `IsTerminal` names.
is_terminal_iff : (s : State) → (is_terminal s ≡ true) ↔ ((e : Event) → next_state s e ≡ none)
unfolding next_state is_terminal
is_terminal_iff created = (λ h e. cc, λ h. cc (h stk_accepted))
is_terminal_iff stk_pushed = (λ h e. cc, λ h. cc (h callback_success))
is_terminal_iff awaiting_pin = (λ h e. cc, λ h. cc (h callback_success))
is_terminal_iff confirmed = (λ h e. cc, λ h. cc (h consumed_event))
is_terminal_iff _ = (λ h e. refl, λ h. refl)

abbrev pub is_paid : State → Bool
is_paid confirmed = true
is_paid consumed = true
is_paid _ = false

paid_step :
    (s : State) (e : Event)
    → is_paid s ≡ false
    → (e ≡ callback_success) ⊎ (is_paid (moved s (next_state s e)) ≡ false)
unfolding next_state
paid_step s e h = ground arith

-- A sequence of events takes a session that is neither confirmed nor consumed to one of these two
-- states only if a success event is among them.
paid_needs_success :
    (s : State) (es : List Event)
    → is_paid s ≡ false
    → is_paid (fire_all s es) ≡ true
    → Memᴰ callback_success es
unfolding fire_all
paid_needs_success s [] h l = cc
paid_needs_success s (e ∷ es) h l = elim (paid_step s e h) [
  | inl p ↦ Memᴰ.head (sym p)
  | inr q ↦ Memᴰ.tail (paid_needs_success (moved s (next_state s e)) es q l)
]
