-- ===== src/Auth/Tokens.antt =====
-- What `GetAccessToken` returns and keeps.
use malipo.Base.{
  String, ◌≡◌, refl, ap, ◌∙◌, ◌⊎◌, inl, inr, true, false, Option, some, arith, Bool-cases,
  Option-cases,
}
use malipo.Base.Int.{ℤ, ◌+ℤ◌}
use malipo.Store.Session.{Time}
use malipo.Store.Error.{Error, Result, ok, err, Result-cases}
use malipo.Auth.{Cache, is_fresh, lease, store_token, refresh, get_access_token}

-- The slow path, with the write lock held.
module _ (parse_int : String → Option ℤ) (fetched : Result (String × String))
    (second_check now : Time) (c : Cache) where
  pub second_hit :
      is_fresh second_check c ≡ true
      → refresh parse_int fetched second_check now c ≡ (ok c.token, c)
  unfolding refresh
  second_hit fresh = rw fresh refl

  pub second_miss :
      is_fresh second_check c ≡ false
      → refresh parse_int fetched second_check now c ≡ store_token parse_int fetched now c
  unfolding refresh
  second_miss stale = rw stale refl

  pub stored :
      (t : String)
      → (store_token parse_int fetched now c).0 ≡ ok t
      → (text : String) × (secs : ℤ) × (fetched ≡ ok (t, text))
        × (parse_int text ≡ some secs)
        × ((store_token parse_int fetched now c).1
            ≡ record { token = t; expires_at = now +ℤ lease secs })
  unfolding store_token
  stored t h = elim (Result-cases fetched) [
    | inl (e, failed) ↦ absurd (ground arith)
    | inr ((token, text), got) ↦ elim (Option-cases (parse_int text)) [
      | inl malformed ↦ absurd (ground arith)
      | inr (secs, read) ↦ (text, secs, ground arith, read, ground arith)
    ]
  ]

  pub unstored :
      (e : Error)
      → (store_token parse_int fetched now c).0 ≡ err e
      → (store_token parse_int fetched now c).1 ≡ c
  unfolding store_token
  unstored e h = elim (Result-cases fetched) [
    | inl (x, failed) ↦ ground arith
    | inr ((token, text), got) ↦ ground arith
  ]

module _ (parse_int : String → Option ℤ) (fetched : Result (String × String))
    (first_check second_check now : Time) (between : Cache → Cache) (c : Cache) where
  first_hit :
      is_fresh first_check c ≡ true
      → get_access_token parse_int fetched first_check second_check now between c ≡ (ok c.token, c)
  unfolding get_access_token
  first_hit fresh = rw fresh refl

  first_miss :
      is_fresh first_check c ≡ false
      → get_access_token parse_int fetched first_check second_check now between c
        ≡ refresh parse_int fetched second_check now (between c)
  unfolding get_access_token
  first_miss stale = rw stale refl

  -- A returned token is the cached one, which had not run out when it was checked under the first or
  -- under the second lock, or it is the fetched one, which is then cached until the instant that its
  -- lifetime gives.
  get_access_token_returns :
      (t : String)
      → let out = get_access_token parse_int fetched first_check second_check now between c in
        out.0 ≡ ok t
        → ((out.1 ≡ c) × (t ≡ c.token) × (is_fresh first_check c ≡ true))
          ⊎ ((out.1 ≡ between c)
              × (t ≡ (between c).token)
              × (is_fresh second_check (between c) ≡ true))
          ⊎ ((text : String) × (secs : ℤ) × (fetched ≡ ok (t, text))
              × (parse_int text ≡ some secs)
              × (out.1 ≡ record { token = t; expires_at = now +ℤ lease secs }))
  get_access_token_returns t h = elim (Bool-cases (is_fresh first_check c)) [
    | inl fresh ↦
        let e = first_hit fresh in
        inl (
          ap (λ (r : Result String × Cache). r.1) e,
          ground (arith, ap (λ (r : Result String × Cache). r.0) e),
          fresh,
        )
    | inr stale ↦
        let e = first_miss stale in
        elim (Bool-cases (is_fresh second_check (between c))) [
          | inl fresh ↦
              let f = e ∙ second_hit parse_int fetched second_check now (between c) fresh in
              inr (
                inl (
                  ap (λ (r : Result String × Cache). r.1) f,
                  ground (arith, ap (λ (r : Result String × Cache). r.0) f),
                  fresh,
                ))
          | inr stale' ↦
              let f = e ∙ second_miss parse_int fetched second_check now (between c) stale' in
              let (text, secs, got, read, kept) =
                stored parse_int fetched second_check now (between c) t
                  (ground (arith, ap (λ (r : Result String × Cache). r.0) f)) in
              inr (inr (text, secs, got, read, ap (λ (r : Result String × Cache). r.1) f ∙ kept))
        ]
  ]

  -- A call that fails found no fresh token under either lock and leaves the cache as the others
  -- left it.
  get_access_token_fails :
      (e : Error)
      → let out = get_access_token parse_int fetched first_check second_check now between c in
        out.0 ≡ err e
        → (is_fresh first_check c ≡ false)
          × (is_fresh second_check (between c) ≡ false)
          × (out.1 ≡ between c)
  get_access_token_fails e h = elim (Bool-cases (is_fresh first_check c)) [
    | inl fresh ↦ absurd (ground (arith, ap (λ (r : Result String × Cache). r.0) (first_hit fresh)))
    | inr stale ↦
        let p = first_miss stale in
        elim (Bool-cases (is_fresh second_check (between c))) [
          | inl fresh ↦ absurd (
              ground (
                arith,
                ap (λ (r : Result String × Cache). r.0)
                    (p ∙ second_hit parse_int fetched second_check now (between c) fresh),
              ))
          | inr stale' ↦
              let q = p ∙ second_miss parse_int fetched second_check now (between c) stale' in
              (
                stale,
                stale',
                ap (λ (r : Result String × Cache). r.1) q
                    ∙ unstored parse_int fetched second_check now (between c) e
                        (ground (arith, ap (λ (r : Result String × Cache). r.0) q)),
              )
        ]
  ]
