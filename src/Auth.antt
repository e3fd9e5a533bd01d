-- ===== src/Auth.antt =====
-- Package auth (auth/manager.go; auth/daraja.go is Auth/Daraja): the access token with its cache, and the
-- password. Base64, the parsing of integers and the local time of Nairobi are outside, and parameters.
pub mod Lease
pub mod Tokens
pub mod Stampede
pub mod Daraja
pub mod Requests
use Prim.Native.String.{◌++◌}
use malipo.Base.{ℕ, suc, ◌+◌, ◌-◌, ◌*◌, ◌%◌, ◌^◌, String, Bool, not, ◌&&◌, Option, none, some}
use malipo.Base.{if◌then◌else◌, str_eq, ltb, ◌==◌}
use malipo.Base.Int.{ℤ, pos, negsuc, ltb_ℤ, ◌+ℤ◌, ◌-ℤ◌}
use malipo.Store.Session.{Time, Duration, StkPushRequest, Bytes}
use malipo.Store.Error.{Error, Result, ok, err, other, message}
use malipo.Session.Manager.{second}

-- `Environment`, a string.
abbrev pub production : String
production = "production"

-- `baseURL`
unfoldable pub base_url : String → String
base_url e =
    if str_eq e production then "https://api.safaricom.co.ke" else "https://sandbox.safaricom.co.ke"

pub record Config : Type 0 where
  pub consumer_key : String
  pub consumer_secret : String
  pub environment : String

-- The default that `NewManager` fills in.
unfoldable pub with_environment : Config → Config
with_environment cfg = record cfg {
  environment = if str_eq cfg.environment "" then "sandbox" else cfg.environment;
}

-- The fields that `mu` protects.
pub record Cache : Type 0 where
  pub token : String
  pub expires_at : Time

-- An integer as the `int64` of the same 64 bits.
unfoldable pub wrap_int64 : ℤ → ℤ
wrap_int64 (pos n) = let u = n % 2 ^ 64 in if ltb u (2 ^ 63) then pos u else negsuc (2 ^ 64 - 1 - u)
wrap_int64 (negsuc n) =
    let u = n % 2 ^ 64 in if ltb u (2 ^ 63) then negsuc u else pos (2 ^ 64 - 1 - u)

abbrev pub times_second : ℤ → ℤ
times_second (pos n) = pos (n * second)
times_second (negsuc n) = negsuc ((n + 1) * second - 1)

-- `time.Duration(secs-119) * time.Second`
unfoldable pub lease : ℤ → Duration
lease secs = wrap_int64 (times_second (wrap_int64 (secs -ℤ pos 119)))

-- The check that is made under either lock.
abbrev pub is_fresh : Time → Cache → Bool
is_fresh now c = not (str_eq c.token "") && ltb_ℤ now c.expires_at

-- What `GetAccessToken` does with the answer of `fetchToken`, at `now`; `parse_int` is
-- `strconv.ParseInt(…, 10, 64)`. The parser's own message is left out of the error.
unfoldable pub store_token :
    (String → Option ℤ) → Result (String × String) → Time → Cache → Result String × Cache
store_token parse_int fetched now c = elim fetched [
  | err e ↦ (err (other ("auth: failed to fetch token: " ++ message e)), c)
  | ok (token, expires_in) ↦ elim (parse_int expires_in) [
    | none ↦ (err (other "auth: invalid expires_in value"), c)
    | some secs ↦ (ok token, record { token = token; expires_at = now +ℤ lease secs })
  ]
]

-- The slow path, with the write lock held: `second_check` is the instant of the check, `now` that after
-- the fetch.
unfoldable pub refresh :
    (String → Option ℤ) → Result (String × String) → Time → Time → Cache → Result String × Cache
refresh parse_int fetched second_check now c =
    if is_fresh second_check c then (ok c.token, c) else store_token parse_int fetched now c

-- `GetAccessToken`; `between` is what others did between the two locks.
unfoldable pub get_access_token :
    (String → Option ℤ)
    → Result (String × String)
    → Time
    → Time
    → Time
    → (Cache → Cache)
    → Cache
    → Result String × Cache
get_access_token parse_int fetched first_check second_check now between c =
    if is_fresh first_check c
    then (ok c.token, c)
    else refresh parse_int fetched second_check now (between c)

-- `GeneratePassword`; `nairobi` is the local time as `20060102150405`, `none` if the zone is unknown.
unfoldable pub generate_password :
    (String → String) → Option String → String → String → String × String
generate_password encode none shortcode passkey = ("", "")
generate_password encode (some timestamp) shortcode passkey =
    (encode (shortcode ++ passkey ++ timestamp), timestamp)
