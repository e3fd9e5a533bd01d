-- ===== src/Store/Error.antt =====
-- The sentinel errors of store/state.go, and a call that may fail.
use Prim.Native.String.{◌++◌}
use malipo.Base.{String, ◌≡◌, ◌⊎◌, inl, inr, refl, Bool, true, false}

-- `other` holds the message of an error that no caller compares.
pub data Error : Type 0 where
  not_found session_exists invalid_transition already_consumed expired storage_unavailable : Error
  other : String → Error

pub data Result {ℓ} (A : Type ℓ) : Type ℓ where
  ok : A → Result A
  err : Error → Result A

pub Result-cases {ℓ} :
    {A : Type ℓ} (r : Result A) → ((e : Error) × (r ≡ err e)) ⊎ ((a : A) × (r ≡ ok a))
Result-cases (ok a) = inr (a, refl)
Result-cases (err e) = inl (e, refl)

-- `err.Error()`
unfoldable pub message : Error → String
message not_found = "store: session not found"
message session_exists = "store: session already exists"
message invalid_transition = "store: invalid state transition"
message already_consumed = "store: session already consumed"
message expired = "store: session has expired"
message storage_unavailable = "store: storage unavailable"
message (other m) = m

-- The rest of a function behind `if err != nil { return … }`.
infixl 5 ◌>>=◌ ◌>>◌
abbrev pub ◌>>=◌ {ℓ κ} : {X : Type ℓ} {Y : Type κ} → Result X → (X → Result Y) → Result Y
err e >>= rest = err e
ok x >>= rest = rest x

abbrev pub ◌>>◌ {ℓ} : {Y : Type ℓ} → Result (Unit {0}) → Result Y → Result Y
first >> rest = first >>= λ _. rest

-- An error of the caller's own, with the callee's behind it (`%w`).
abbrev pub wrap {ℓ} : {X : Type ℓ} → String → Result X → Result X
wrap what (ok x) = ok x
wrap what (err e) = err (other (what ++ message e))

-- A condition under which the function returns an error.
abbrev pub reject_if : Bool → Error → Result (Unit {0})
reject_if true e = err e
reject_if false e = ok tt

-- What a bind that succeeds has gone through.
pub >>=-eq-ok {ℓ κ} :
    {X : Type ℓ} {Y : Type κ} (r : Result X) (rest : X → Result Y) {y : Y}
    → (r >>= rest) ≡ ok y
    → (x : X) × (r ≡ ok x) × (rest x ≡ ok y)
>>=-eq-ok (err e) rest h = absurd (cc)
>>=-eq-ok (ok x) rest h = (x, refl, h)
