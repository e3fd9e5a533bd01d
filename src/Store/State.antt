-- ===== src/Store/State.antt =====
-- store/state.go: the lifecycle states of a payment session.
use malipo.Base.{ℕ, String, Bool, true, false, ◌≡◌, ◌↔◌, refl, str_eq, arith, ◌==◌}

-- Go's `State` is a string type, of which the program stores these eight constants.
pub data State : Type 0 where
  created stk_pushed awaiting_pin confirmed consumed timeout cancelled failed : State

pub State-discrete : Discrete State
State-discrete = hlevel

-- `string(s)`: the text that is stored in a row and handed to a client.
unfoldable pub to_string : State → String
to_string created = "CREATED"
to_string stk_pushed = "STK_PUSHED"
to_string awaiting_pin = "AWAITING_PIN"
to_string confirmed = "CONFIRMED"
to_string consumed = "CONSUMED"
to_string timeout = "TIMEOUT"
to_string cancelled = "CANCELLED"
to_string failed = "FAILED"

unfoldable pub is_terminal : State → Bool
is_terminal consumed = true
is_terminal timeout = true
is_terminal cancelled = true
is_terminal failed = true
is_terminal _ = false

tag : State → ℕ
tag created = 0
tag stk_pushed = 1
tag awaiting_pin = 2
tag confirmed = 3
tag consumed = 4
tag timeout = 5
tag cancelled = 6
tag failed = 7

-- Go's `==` on states.
unfoldable pub state_eq : State → State → Bool
unfolding tag
state_eq s t = tag s == tag t

pub state_eq_iff : (s t : State) → (state_eq s t ≡ true) ↔ (s ≡ t)
unfolding state_eq
state_eq_iff s t = ground arith

-- Comparing the texts of two states compares the states: no two constants share a text.
pub to_string_inj : (s t : State) → str_eq (to_string s) (to_string t) ≡ state_eq s t
unfolding to_string state_eq
to_string_inj created created = refl
to_string_inj stk_pushed created = refl
to_string_inj awaiting_pin created = refl
to_string_inj confirmed created = refl
to_string_inj consumed created = refl
to_string_inj timeout created = refl
to_string_inj cancelled created = refl
to_string_inj failed created = refl
to_string_inj _ _ = refl
