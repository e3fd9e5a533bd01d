-- ===== src/Auth/Stampede.antt =====
-- auth/manager.go: many callers of `GetAccessToken` at once. The code runs in sections of its lock: of the
-- first check, and of the second check with the fetch.
use malipo.Base.{
  ℕ, suc, ◌≤◌, String, ◌≡◌, ◌≢◌, refl, ap, ◌⊎◌, inl, inr, Bool, true, false, not, Option, none,
  some, List, [], ◌∷◌, arith,
}
use malipo.Base.{All, if◌then◌else◌, eq_iff}
use malipo.Base.Int.{ℤ, ltb_ℤ, ◌+ℤ◌}
use malipo.Store.Session.{Time}
use malipo.Store.Error.{Error, Result, Result-cases, ok, err}
use malipo.Auth.{Cache, is_fresh, lease, refresh, store_token, get_access_token}
use malipo.Auth.Tokens.{second_hit, second_miss, stored, unstored}

-- A section under the read lock with its instant, or one under the write lock with what the fetch answers,
-- the instant of its check, and that after the fetch.
pub data Section : Type 0 where
  reading : Time → Section
  writing : Result (String × String) → Time → Time → Section

module _ (parse_int : String → Option ℤ) where
  -- What `GetAccessToken` returns in a section, or `none` where it goes on to the write lock.
  unfoldable pub perform : Section → Cache → Option (Result String) × Cache
  perform (reading check) c = (if is_fresh check c then some (ok c.token) else none, c)
  perform (writing fetched check now) c =
      let (r, c') = refresh parse_int fetched check now c in (some r, c')

  -- Whether a section asks the service for a token.
  abbrev pub fetches : Section → Cache → Bool
  fetches (reading check) c = false
  fetches (writing fetched check now) c = not (is_fresh check c)

  -- What the callers get, in the order of the sections.
  unfoldable pub returned : List Section → Cache → List (Result String)
  returned [] c = []
  returned (s ∷ ss) c =
      let (o, c') = perform s c in
      let rest = returned ss c' in elim o [ none ↦ rest | some r ↦ r ∷ rest ]

  unfoldable pub fetches_in : List Section → Cache → ℕ
  fetches_in [] c = 0
  fetches_in (s ∷ ss) c =
      let rest = fetches_in ss (perform s c).1 in if fetches s c then suc rest else rest

  -- A call of `GetAccessToken` is its two sections, the second one after what others did.
  get_access_token-perform :
      (fetched : Result (String × String)) (first_check second_check now : Time)
      (between : Cache → Cache) (c : Cache)
      → get_access_token parse_int fetched first_check second_check now between c
        ≡ elim (perform (reading first_check) c).0 [
          | some r ↦ (r, c)
          | none ↦ refresh parse_int fetched second_check now (between c)
        ]
  unfolding get_access_token perform
  get_access_token-perform fetched first_check second_check now between c = ground arith

abbrev pub errors_in : List (Result String) → ℕ
errors_in [] = 0
errors_in (ok t ∷ rs) = errors_in rs
errors_in (err e ∷ rs) = suc (errors_in rs)

-- A caller has the token, or an error.
abbrev pub IsOneOf : String → Result String → Type 0
IsOneOf t r = (r ≡ ok t) ⊎ ((e : Error) × (r ≡ err e))

module _ (parse_int : String → Option ℤ) (limit : Time) where
  abbrev pub IsBefore : Section → Type 0
  IsBefore (reading check) = ltb_ℤ check limit ≡ true
  IsBefore (writing fetched check now) = ltb_ℤ check limit ≡ true

  -- A cache with a token that lasts at least until the limit.
  record IsHeld (t : String) (c : Cache) : Type 0 where
    token : c.token ≡ t
    set : t ≢ ""
    lasts : ltb_ℤ c.expires_at limit ≡ false

  held_fresh :
      (t : String) (c : Cache) (check : Time)
      → IsHeld t c
      → ltb_ℤ check limit ≡ true
      → is_fresh check c ≡ true
  held_fresh t c check h before = ground (arith, h.token, h.set, h.lasts, eq_iff c.token "")

  -- While a token lasts, every caller gets it and none asks for another.
  returned-IsHeld :
      (t : String) (ss : List Section) (c : Cache)
      → IsHeld t c
      → All IsBefore ss
      → All (λ r. r ≡ ok t) (returned parse_int ss c) × (fetches_in parse_int ss c ≡ 0)
  unfolding returned fetches_in perform
  returned-IsHeld t [] c h before = (tt, refl)
  returned-IsHeld t (reading check ∷ ss) c h before =
      let (rest, quiet) = returned-IsHeld t ss c h before.1 in
      rw (returned, fetches_in, perform, held_fresh t c check h before.0)
        ((ap ok h.token, rest), quiet)
  returned-IsHeld t (writing fetched check now ∷ ss) c h before =
      let (rest, quiet) = returned-IsHeld t ss c h before.1 in
      let fresh = held_fresh t c check h before.0 in
      rw (returned, fetches_in, perform, second_hit parse_int fetched check now c fresh, fresh)
        ((ap ok h.token, rest), quiet)

  -- A section that is before the limit, finds no fresh token in the cache that the callers began with, and
  -- whose fetch, if it is good, gives a token that lasts until the limit.
  abbrev pub IsWithin : Cache → Section → Type 0
  IsWithin c (reading check) = (ltb_ℤ check limit ≡ true) × (is_fresh check c ≡ false)
  IsWithin c (writing fetched check now) =
      (ltb_ℤ check limit ≡ true)
      × (is_fresh check c ≡ false)
      × ((token text : String) (secs : ℤ)
          → fetched ≡ ok (token, text)
          → parse_int text ≡ some secs
          → (token ≢ "") × (ltb_ℤ (now +ℤ lease secs) limit ≡ false))

  within-IsBefore : (c : Cache) (ss : List Section) → All (IsWithin c) ss → All IsBefore ss
  within-IsBefore c [] h = tt
  within-IsBefore c (reading check ∷ ss) h = (h.0.0, within-IsBefore c ss h.1)
  within-IsBefore c (writing fetched check now ∷ ss) h = (h.0.0, within-IsBefore c ss h.1)

  -- A fetch that is good.
  fetched-IsHeld :
      (fetched : Result (String × String)) (check now : Time) (c : Cache) (t : String)
      → IsWithin c (writing fetched check now)
      → (store_token parse_int fetched now c).0 ≡ ok t
      → IsHeld t (store_token parse_int fetched now c).1
  fetched-IsHeld fetched check now c t h done =
      let (text, secs, got, read, kept) = stored parse_int fetched check now c t done in
      let (set, lasts) = h.2 t text secs got read in
      rw kept (record { token = refl; set = set; lasts = lasts })

  -- A good fetch, and the sections after it.
  after_fetch :
      (t : String) (ss : List Section) (c : Cache)
      → IsHeld t c
      → All IsBefore ss
      → All (IsOneOf t) (returned parse_int ss c) × (fetches_in parse_int ss c ≡ 0)
  after_fetch t ss c h before =
      let (same, quiet) = returned-IsHeld t ss c h before in (All-map _ same, quiet)
    where
      All-map : (rs : List (Result String)) → All (λ r. r ≡ ok t) rs → All (IsOneOf t) rs
      All-map [] g = tt
      All-map (r ∷ rs) g = (inl g.0, All-map rs g.1)

  -- From a cache in which none of the callers finds a fresh token, with any number of callers, whose
  -- sections come in any order: if all checks are made before an instant up to which the token of every
  -- good fetch lasts, then all callers that get a token get the same one, and the service is asked for
  -- a token at most once more than callers end in an error.
  pub one_token :
      (ss : List Section) (c : Cache)
      → All (IsWithin c) ss
      → (t : String) × All (IsOneOf t) (returned parse_int ss c)
        × (fetches_in parse_int ss c ≤ suc (errors_in (returned parse_int ss c)))
  unfolding returned fetches_in perform
  one_token [] c h = ("", tt, omega arith)
  one_token (reading check ∷ ss) c h =
      rw (returned, fetches_in, perform, h.0.1) (one_token ss c h.1)
  one_token (writing fetched check now ∷ ss) c h =
      let missed = second_miss parse_int fetched check now c h.0.1 in
      elim (Result-cases (store_token parse_int fetched now c).0) [
        | inl (e, failed) ↦
            let kept = unstored parse_int fetched check now c e failed in
            let (t, rest, few) = one_token ss c h.1 in
            rw (returned, fetches_in, perform, missed, h.0.1, failed, kept)
              (t, (inr (e, refl), rest), omega arith)
        | inr (t, done) ↦
            let c' = (store_token parse_int fetched now c).1 in
            let (rest, quiet) =
              after_fetch t ss c' (fetched-IsHeld fetched check now c t h.0 done)
                (within-IsBefore c ss h.1) in
            rw (returned, fetches_in, perform, missed, h.0.1, done, quiet)
              (t, (inl refl, rest), omega arith)
      ]
