-- ===== src/Auth/Lease.antt =====
-- How long a token is kept.
use malipo.Base.{ℕ, ◌+◌, ◌*◌, ◌^◌, ◌<◌, ◌≡◌, arith}
use malipo.Base.Int.{ℤ, pos}
use malipo.Session.Manager.{second}
use malipo.Auth.{lease, wrap_int64}

-- A lifetime of 119 seconds or more, of which the part above 119 seconds is within the range of a
-- duration, keeps the token for just that part.
pub lease_exact : (k : ℕ) → k * second < 2 ^ 63 → lease (pos (119 + k)) ≡ pos (k * second)
unfolding lease wrap_int64 malipo.Base.Int.◌-ℤ◌
lease_exact k fits = ground arith
