-- ===== src/Tests/AuthTests.antt =====
-- auth/manager.go: the token cache.
use malipo.Base.{
  suc, ◌+◌, ◌*◌, ◌≤◌, String, ◌≡◌, ◌≢◌, refl, subst, false, Option, some, List, [], ◌∷◌, arith, All,
  eq_iff,
}
use malipo.Base.Int.{ℤ, pos, ◌+ℤ◌, ◌-ℤ◌, ltb_ℤ}
use malipo.Store.Error.{Result, ok, err, storage_unavailable}
use malipo.Session.Manager.{second}
use malipo.Auth.{Cache, is_fresh, lease, get_access_token, refresh, store_token}
use malipo.Auth.Stampede.{
  Section, reading, writing, returned, fetches_in, errors_in, IsWithin, IsOneOf, one_token,
}
use malipo.Auth.Lease.{lease_exact}

abbrev empty : Cache
empty = record { token = ""; expires_at = pos 0 }

abbrev parse : String → Option ℤ
parse text = some (pos 3599)

abbrev fetched_token : String
fetched_token = "token"

abbrev fetched : Result (String × String)
fetched = ok (fetched_token, "3599")

lease_exact_example : lease (pos (119 + 3480)) ≡ pos (3480 * second)
lease_exact_example = lease_exact 3480 (omega arith)

-- Two callers miss; the fetch of one fails, that of the other succeeds, and a third caller comes late.
abbrev failing : Result (String × String)
failing = err storage_unavailable

abbrev callers : List Section
callers =
    reading (pos 1)
    ∷ reading (pos 2)
    ∷ writing failing (pos 3) (pos 4)
    ∷ writing fetched (pos 5) (pos 6)
    ∷ reading (pos 7)
    ∷ []

failing_writes : IsWithin parse (pos 100) empty (writing failing (pos 3) (pos 4))
failing_writes = (refl, refl, λ token text secs h p. absurd (cc h))

fetched_writes : IsWithin parse (pos 100) empty (writing fetched (pos 5) (pos 6))
unfolding lease malipo.Auth.wrap_int64 ◌+ℤ◌ ◌-ℤ◌
fetched_writes = (
  refl,
  refl,
  λ token text secs h p.
      let same : fetched_token ≡ token = cc h in
      let read : pos 3599 ≡ secs = cc p in
      (
        subst (λ t. t ≢ "") same (λ e. ground (arith, eq_iff fetched_token "")),
        subst (λ n. ltb_ℤ (pos 6 +ℤ lease n) (pos 100) ≡ false) read refl,
      ),
)

one_token_example :
    (t : String) × All (IsOneOf t) (returned parse callers empty)
    × (fetches_in parse callers empty ≤ suc (errors_in (returned parse callers empty)))
one_token_example =
    one_token parse (pos 100) callers empty
      ((refl, refl), ((refl, refl), (failing_writes, (fetched_writes, ((refl, refl), tt)))))
