-- ===== src/Session/Machine.antt =====
-- session/state.go: the events, the transition table, and the result codes.
pub mod Paths
use malipo.Base.{
  ℕ, suc, ◌+◌, ◌<◌, ◌≤◌, String, ◌≡◌, ◌≢◌, ◌↔◌, ◌⊎◌, inl, inr, refl, Bool, true, false, Option,
  none, some, List, [], ◌∷◌, arith,
}
use malipo.Base.{if◌then◌else◌, is_some, str_eq}
use malipo.Base.Int.{ℤ, pos, eqb_ℤ}
use malipo.Store.State.{
  State, created, stk_pushed, awaiting_pin, confirmed, consumed, timeout, cancelled, failed,
  is_terminal,
}

-- Go's `Event` is a string type with these nine constants.
pub data Event : Type 0 where
  stk_accepted stk_rejected callback_success callback_cancelled callback_timeout : Event
  callback_failed consumed_event ttl_expired query_awaiting_pin : Event

-- `validTransitions`, a map of maps: the inner map of a state, by its events.
abbrev pub from_created : Event → Option State
from_created stk_accepted = some stk_pushed
from_created stk_rejected = some failed
from_created _ = none

abbrev pub from_stk_pushed : Event → Option State
from_stk_pushed callback_success = some confirmed
from_stk_pushed callback_cancelled = some cancelled
from_stk_pushed callback_timeout = some timeout
from_stk_pushed callback_failed = some failed
from_stk_pushed ttl_expired = some timeout
from_stk_pushed query_awaiting_pin = some awaiting_pin
from_stk_pushed _ = none

abbrev pub from_awaiting_pin : Event → Option State
from_awaiting_pin callback_success = some confirmed
from_awaiting_pin callback_cancelled = some cancelled
from_awaiting_pin callback_timeout = some timeout
from_awaiting_pin callback_failed = some failed
from_awaiting_pin ttl_expired = some timeout
from_awaiting_pin _ = none

abbrev pub from_confirmed : Event → Option State
from_confirmed consumed_event = some consumed
from_confirmed ttl_expired = some timeout
from_confirmed _ = none

-- A state that is no key of the outer map has no inner map.
unfoldable pub valid_transitions : State → Option (Event → Option State)
valid_transitions created = some from_created
valid_transitions stk_pushed = some from_stk_pushed
valid_transitions awaiting_pin = some from_awaiting_pin
valid_transitions confirmed = some from_confirmed
valid_transitions _ = none

-- The two lookups of `Manager.transition`.
unfoldable pub next_state : State → Event → Option State
unfolding valid_transitions
next_state from event = elim (valid_transitions from) [ none ↦ none | some events ↦ events event ]

-- `resultCodeToEvent`
unfoldable pub result_code_to_event : ℤ → Event
result_code_to_event code =
    if eqb_ℤ code (pos 0)
    then callback_success
    else if eqb_ℤ code (pos 1032)
    then callback_cancelled
    else if eqb_ℤ code (pos 1037)
    then callback_timeout
    else callback_failed

-- `queryResultCodeToEvent`
unfoldable pub query_result_code_to_event : String → Event
query_result_code_to_event code =
    if str_eq code "0"
    then callback_success
    else if str_eq code "500.001.1001"
    then query_awaiting_pin
    else callback_failed
