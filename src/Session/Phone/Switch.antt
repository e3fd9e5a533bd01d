-- ===== src/Session/Phone/Switch.antt =====
-- session/phone.go: the `switch` of `normalizePhone` on subscriber numbers.
use malipo.Base.{
  ◌≡◌, ◌↔◌, ◌⊎◌, inl, inr, refl, sym, subst, ◌∙◌, Bool, true, false, [], ◌∷◌, ◌++◌, arith,
}
use malipo.Base.{if◌then◌else◌}
use malipo.Base.Lists.{length, get_or, take, take_of_length-le, drop, codes}
use malipo.Store.Session.{Bytes}
use malipo.Store.Error.{Error, ok, err, other}
use malipo.Session.Phone.{
  is_valid_kenyan_prefix, is_international, has_trunk_prefix, is_bare, to_e164,
}
use malipo.Session.Phone.Scan.{AllDigits}

-- A subscriber number: nine digits, the first of them 7 or 1.
pub record IsSubscriber (p : Bytes) : Type 0 where
  pub nine : length p ≡ 9
  pub digits : AllDigits p
  pub mobile : (get_or p 0 0 ≡ b'7') ⊎ (get_or p 0 0 ≡ b'1')

prefix_iff :
    (p : Bytes)
    → length p ≡ 9
    → AllDigits p
    → (is_valid_kenyan_prefix (get_or p 0 0) (get_or p 1 0) ≡ true)
      ↔ ((get_or p 0 0 ≡ b'7') ⊎ (get_or p 0 0 ≡ b'1'))
unfolding is_valid_kenyan_prefix
prefix_iff [] n h = absurd (omega arith)
prefix_iff (a ∷ []) n h = absurd (omega arith)
prefix_iff (a ∷ b ∷ t) n h = ground arith

-- The digits of a subscriber number with each of the prefixes that the switch knows.
abbrev pub e164 : Bytes → Bytes
e164 p = codes "+254" ++ p

module _ (p : Bytes) (v : IsSubscriber p) where
  pub to_e164_bare : to_e164 p ≡ ok (e164 p)
  unfolding to_e164
  to_e164_bare = ground (arith, prefix_iff p v.nine v.digits, take_of_length-le 9 p)

  pub to_e164_trunk : to_e164 (b'0' ∷ p) ≡ ok (e164 p)
  unfolding to_e164
  to_e164_trunk = ground (arith, prefix_iff p v.nine v.digits, take_of_length-le 9 p)

  pub to_e164_country : to_e164 (codes "254" ++ p) ≡ ok (e164 p)
  unfolding to_e164
  to_e164_country = ground (arith, prefix_iff p v.nine v.digits, take_of_length-le 9 p)

IsSubscriber-prefix :
    (p : Bytes)
    → length p ≡ 9
    → AllDigits p
    → is_valid_kenyan_prefix (get_or p 0 0) (get_or p 1 0) ≡ true
    → IsSubscriber p
IsSubscriber-prefix p n h valid = record {
  nine = n;
  digits = h;
  mobile = (prefix_iff p n h).0 valid;
}

-- A subscriber number stands in the result `out`.
abbrev pub Carries : Bytes → Type 0
Carries out = (p : Bytes) × IsSubscriber p × (out ≡ e164 p)

international-Carries :
    (d : Bytes)
    → AllDigits d
    → length d ≡ 12
    → get_or d 0 0 ≡ b'2'
    → get_or d 1 0 ≡ b'5'
    → get_or d 2 0 ≡ b'4'
    → is_valid_kenyan_prefix (get_or d 3 0) (get_or d 4 0) ≡ true
    → Carries (b'+' ∷ take 12 d)
international-Carries (a ∷ b ∷ c ∷ r) h n p0 p1 p2 valid = (
  r,
  IsSubscriber-prefix r (omega arith) h.1.1.1 valid,
  rw (take_of_length-le 9 r (omega arith), p0, p1, p2),
)
international-Carries _ h n p0 p1 p2 valid = absurd (omega arith)

trunk-Carries :
    (d : Bytes)
    → AllDigits d
    → length d ≡ 10
    → is_valid_kenyan_prefix (get_or d 1 0) (get_or d 2 0) ≡ true
    → Carries (codes "+254" ++ take 9 (drop 1 d))
trunk-Carries [] h n valid = absurd (omega arith)
trunk-Carries (a ∷ r) h n valid =
    (r, IsSubscriber-prefix r (omega arith) h.1 valid, rw (take_of_length-le 9 r (omega arith)))

country_test :
    (d : Bytes)
    → is_international d ≡ true
    → (length d ≡ 12)
      × (get_or d 0 0 ≡ b'2')
      × (get_or d 1 0 ≡ b'5')
      × (get_or d 2 0 ≡ b'4')
      × (is_valid_kenyan_prefix (get_or d 3 0) (get_or d 4 0) ≡ true)
unfolding is_international
country_test d h = ground arith

trunk_test :
    (d : Bytes)
    → has_trunk_prefix d ≡ true
    → (length d ≡ 10) × (is_valid_kenyan_prefix (get_or d 1 0) (get_or d 2 0) ≡ true)
unfolding has_trunk_prefix
trunk_test d h = ground arith

bare_test :
    (d : Bytes)
    → is_bare d ≡ true
    → (length d ≡ 9) × (is_valid_kenyan_prefix (get_or d 0 0) (get_or d 1 0) ≡ true)
unfolding is_bare
bare_test d h = ground arith

-- The arms of the switch, for conditions of any value.
arms :
    (a b c : Bool) (x y z : Bytes) (e : Error) {out : Bytes}
    → (if a then ok x else if b then ok y else if c then ok z else err e) ≡ ok out
    → ((a ≡ true) × (x ≡ out)) ⊎ ((b ≡ true) × (y ≡ out)) ⊎ ((c ≡ true) × (z ≡ out))
arms true b c x y z e h = inl (refl, cc)
arms false true c x y z e h = inr (inl (refl, cc))
arms false false true x y z e h = inr (inr (refl, cc))
arms false false false x y z e h = absurd (cc)

-- The result of the switch is one of the three that it writes, with what it has tested.
pub to_e164-Carries : (d : Bytes) {out : Bytes} → AllDigits d → to_e164 d ≡ ok out → Carries out
unfolding to_e164
to_e164-Carries d {out} h e =
    elim (arms (is_international d) (has_trunk_prefix d) (is_bare d) _ _ _
      (other "invalid Kenyan phone number") e) [
        | inl (tested, same) ↦
            let (n, p0, p1, p2, valid) = country_test d tested in
            subst Carries same (international-Carries d h n p0 p1 p2 valid)
        | inr (inl (tested, same)) ↦
            let (n, valid) = trunk_test d tested in subst Carries same (trunk-Carries d h n valid)
        | inr (inr (tested, same)) ↦
            let (n, valid) = bare_test d tested in
            (
              d,
              IsSubscriber-prefix d n h valid,
              sym same ∙ rw (take_of_length-le 9 d (omega arith)),
            )
      ]
