-- ===== src/Session/Phone/E164.antt =====
-- What `normalizePhone` accepts and returns.
use malipo.Base.{ℕ, ◌≤◌, ◌<◌, ◌≡◌, inl, inr, refl, ap, sym, subst, ◌∙◌, true, [], ◌∷◌, ◌++◌, arith}
use malipo.Base.Lists.{length, codes}
use malipo.Store.Session.{Bytes}
use malipo.Store.Error.{ok, Result-cases}
use malipo.Session.Phone.{is_digit, is_separator, scan, to_e164, finish, normalize_phone}
use malipo.Session.Phone.Scan.{AllDigits, scan-AllDigits, scan-separator, scan_stores}
use malipo.Session.Phone.Switch.{
  IsSubscriber, e164, Carries, to_e164_bare, to_e164_trunk, to_e164_country, to_e164-Carries,
}

normalize_digits :
    (p : Bytes) → AllDigits p → 0 < length p → length p ≤ 12 → normalize_phone p ≡ to_e164 p
unfolding normalize_phone
normalize_digits [] h pos fits = absurd (omega arith)
normalize_digits (c ∷ p) h pos fits = rw (scan-AllDigits [] (c ∷ p) h (omega arith))

normalize_plus : (p : Bytes) → 0 < length p → normalize_phone (b'+' ∷ p) ≡ normalize_phone p
unfolding normalize_phone
normalize_plus [] pos = absurd (omega arith)
normalize_plus (c ∷ p) pos = refl

-- A subscriber number, nine digits of which the first is 7 or 1, gives the same text, +254 and the
-- nine digits, in each of the four ways to write it: bare, with 0, with 254 and with +254 before
-- it.
pub normalize_formats :
    (p : Bytes)
    → IsSubscriber p
    → (normalize_phone p ≡ ok (e164 p))
      × (normalize_phone (b'0' ∷ p) ≡ ok (e164 p))
      × (normalize_phone (codes "254" ++ p) ≡ ok (e164 p))
      × (normalize_phone (codes "+254" ++ p) ≡ ok (e164 p))
unfolding is_digit
normalize_formats p v =
    let country =
      normalize_digits (codes "254" ++ p) (refl, (refl, (refl, v.digits))) (omega arith)
        (omega (arith, v.nine))
      ∙ to_e164_country p v in
    (
      normalize_digits p v.digits (omega (arith, v.nine)) (omega (arith, v.nine))
          ∙ to_e164_bare p v,
      normalize_digits (b'0' ∷ p) (refl, v.digits) (omega arith) (omega (arith, v.nine))
          ∙ to_e164_trunk p v,
      country,
      normalize_plus (codes "254" ++ p) (omega arith) ∙ country,
    )

finish-IsSubscriber : (d : Bytes) {out : Bytes} → AllDigits d → finish (ok d) ≡ ok out → Carries out
finish-IsSubscriber [] h e = absurd (cc)
finish-IsSubscriber (c ∷ d) h e = to_e164-Carries (c ∷ d) h e

-- Whatever text is accepted, the result is +254 and nine digits, of which the first is 7 or 1.
pub normalize-IsSubscriber :
    (p : Bytes) {out : Bytes}
    → normalize_phone p ≡ ok out
    → (q : Bytes) × IsSubscriber q × (out ≡ e164 q)
unfolding normalize_phone
normalize-IsSubscriber [] e = absurd (cc)
normalize-IsSubscriber (c ∷ p) {out} e = elim (Result-cases (scan [] (c ∷ p))) [
  | inl (x, failed) ↦ absurd (ground arith)
  | inr (d, scanned) ↦
      finish-IsSubscriber d (scan_stores [] (c ∷ p) tt scanned)
        (subst (λ r. finish r ≡ ok out) scanned e)
]

-- A number that normalisation returned is normalised to itself.
normalize_idem :
    (p : Bytes) {out : Bytes} → normalize_phone p ≡ ok out → normalize_phone out ≡ ok out
normalize_idem p e =
    let (q, v, same) = normalize-IsSubscriber p e in rw same (normalize_formats q v).3

normalize-finish : (p : Bytes) → normalize_phone p ≡ finish (scan [] p)
unfolding normalize_phone
normalize-finish [] = refl
normalize-finish (c ∷ p) = refl

-- A space, a hyphen or a bracket may stand anywhere: the result, also an error, is the same without
-- it.
normalize-separator :
    (p q : Bytes) (c : ℕ)
    → is_separator c ≡ true
    → normalize_phone (p ++ c ∷ q) ≡ normalize_phone (p ++ q)
normalize-separator p q c h =
    normalize-finish (p ++ c ∷ q)
    ∙ ap finish (scan-separator [] p q c h)
    ∙ sym (normalize-finish (p ++ q))
