-- ===== src/Session/Phone/Scan.antt =====
-- session/phone.go: what the loop of `normalizePhone` stores.
use mathlib.Core.List.{append_assoc, append-nil}
use malipo.Base.{ℕ, ◌+◌, ◌≤◌, ◌≡◌, inl, inr, subst, true, [], ◌∷◌, ◌++◌, arith}
use malipo.Base.{All, Bool-cases}
use malipo.Base.Lists.{length, length-append}
use malipo.Store.Session.{Bytes}
use malipo.Store.Error.{ok}
use malipo.Session.Phone.{is_digit, is_separator, scan}

abbrev pub AllDigits : Bytes → Type 0
AllDigits = All (λ c. is_digit c ≡ true)

-- One more digit behind those that are stored.
stored-AllDigits : (d : Bytes) (c : ℕ) → AllDigits d → is_digit c ≡ true → AllDigits (d ++ c ∷ [])
stored-AllDigits [] c h digit = (digit, tt)
stored-AllDigits (first ∷ d) c h digit = (h.0, stored-AllDigits d c h.1 digit)

pub scan-AllDigits : (d p : Bytes) → AllDigits p → length d + length p ≤ 12 → scan d p ≡ ok (d ++ p)
unfolding scan
scan-AllDigits d [] h fits = rw append-nil
scan-AllDigits d (c ∷ p) h fits =
    ground (
      arith,
      scan-AllDigits (d ++ c ∷ []) p h.1,
      length-append d (c ∷ []),
      append_assoc d (c ∷ []) p,
    )

-- A separator anywhere in the text makes no difference.
pub scan-separator :
    (d p q : Bytes) (c : ℕ) → is_separator c ≡ true → scan d (p ++ c ∷ q) ≡ scan d (p ++ q)
unfolding scan
scan-separator d [] q c h = ground arith
scan-separator d (x ∷ p) q c h =
    ground (arith, scan-separator d p q c h, scan-separator (d ++ x ∷ []) p q c h)

-- What the loop stores are digits.
pub scan_stores : (d p : Bytes) {r : Bytes} → AllDigits d → scan d p ≡ ok r → AllDigits r
unfolding scan
scan_stores d [] h e = let same : d ≡ _ = cc in subst AllDigits same h
scan_stores d (c ∷ p) h e = elim (Bool-cases (is_digit c)) [
  | inl digit ↦ scan_stores (d ++ c ∷ []) p (stored-AllDigits d c h digit) (ground arith)
  | inr skipped ↦ scan_stores d p h (ground arith)
]
