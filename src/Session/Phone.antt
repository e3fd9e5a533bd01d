-- ===== src/Session/Phone.antt =====
-- session/phone.go: a Kenyan phone number to E.164. A text is its bytes.
-- `digits [12]byte` with its fill count `n` is the list of the digits stored so far.
pub mod Scan
pub mod Switch
pub mod E164
use malipo.Base.{ℕ, suc, ◌≤◌, Bool, true, false, ◌&&◌, ◌||◌, List, [], ◌∷◌, ◌++◌}
use malipo.Base.{if◌then◌else◌, leb, ◌==◌}
use malipo.Base.Lists.{length, get_or, take, drop, codes}
use malipo.Store.Session.{Bytes}
use malipo.Store.Error.{Result, ok, err, other}

unfoldable pub is_digit : ℕ → Bool
is_digit c = leb b'0' c && leb c b'9'

unfoldable pub is_separator : ℕ → Bool
is_separator c = c == b' ' || c == b'-' || c == b'(' || c == b')'

-- `isValidKenyanPrefix`
unfoldable pub is_valid_kenyan_prefix : ℕ → ℕ → Bool
unfolding is_digit
is_valid_kenyan_prefix a b = if a == b'7' || a == b'1' then is_digit b else false

-- The `for` loop: the digits of `p` behind those that are stored.
unfoldable pub scan : Bytes → Bytes → Result Bytes
unfolding is_digit is_separator
scan digits [] = ok digits
scan digits (c ∷ p) =
    let n = length digits in
    let skipped = scan digits p in
    let stored = scan (digits ++ c ∷ []) p in
    if c == b'+' && n == 0
    then skipped
    else if is_digit c
    then (if leb 12 n then err (other "phone number too long") else stored)
    else if is_separator c
    then skipped
    else err (other "invalid character in phone number")

-- `digits[i]`; the array is zero behind its `n` digits.
abbrev pub at : Bytes → ℕ → ℕ
at digits i = get_or digits i 0

-- The three conditions of the final `switch`: an international number, one with the trunk prefix 0,
-- and a bare subscriber number.
unfoldable pub is_international : Bytes → Bool
unfolding is_valid_kenyan_prefix
is_international digits =
    length digits == 12
    && at digits 0 == b'2'
    && at digits 1 == b'5'
    && at digits 2 == b'4'
    && is_valid_kenyan_prefix (at digits 3) (at digits 4)

unfoldable pub has_trunk_prefix : Bytes → Bool
unfolding is_valid_kenyan_prefix
has_trunk_prefix digits =
    length digits == 10 && at digits 0 == b'0' && is_valid_kenyan_prefix (at digits 1) (at digits 2)

unfoldable pub is_bare : Bytes → Bool
unfolding is_valid_kenyan_prefix
is_bare digits = length digits == 9 && is_valid_kenyan_prefix (at digits 0) (at digits 1)

-- The `switch` itself.
unfoldable pub to_e164 : Bytes → Result Bytes
unfolding is_international has_trunk_prefix is_bare
to_e164 digits =
    if is_international digits
    then ok (b'+' ∷ take 12 digits)
    else if has_trunk_prefix digits
    then ok (codes "+254" ++ take 9 (drop 1 digits))
    else if is_bare digits
    then ok (codes "+254" ++ take 9 digits)
    else err (other "invalid Kenyan phone number")

-- What follows the loop.
abbrev pub finish : Result Bytes → Result Bytes
finish (err e) = err e
finish (ok []) = err (other "empty phone number")
finish (ok (c ∷ digits)) = to_e164 (c ∷ digits)

-- `normalizePhone`
unfoldable pub normalize_phone : Bytes → Result Bytes
unfolding scan to_e164
normalize_phone [] = err (other "empty phone number")
normalize_phone (c ∷ p) = finish (scan [] (c ∷ p))
