-- ===== src/Base/Holds.antt =====
-- An entry of a map with a given value of one of its fields, and the writes that keep it.
use malipo.Base.{String, ◌≡◌, sym, ◌∙◌, ap, inl, inr, none, some, arith}
use malipo.Base.{str_eq, eq_iff, eq_refl, Bool-cases}
use malipo.Base.Map.{Map, lookup, insert, lookup-insert}

module _ {V E : Type 0} (field : V → E) (k : String) (x : E) where
  pub record Holds (m : Map V) : Type 0 where
    pub value : V
    pub found : lookup k m ≡ some value
    pub held : field value ≡ x

  Holds-insert :
      (id : String) (v : V) (m : Map V)
      → (lookup k m ≡ lookup id m → Holds m → field v ≡ x)
      → Holds m
      → Holds (insert id v m)
  Holds-insert id v m kept h = elim (Bool-cases (str_eq id k)) [
    | inl same ↦ record {
      value = v;
      found = lookup-insert id k v m ∙ rw same;
      held = kept (ap (λ j. lookup j m) (sym ((eq_iff id k).0 same))) h;
    }
    | inr other ↦ record {
      value = h.value;
      found = lookup-insert id k v m ∙ rw (other, h.found);
      held = h.held;
    }
  ]

  -- A write in the place of an entry with the same value of the field.
  pub Holds-replaced :
      (id : String) (v w : V) (m : Map V)
      → lookup id m ≡ some v
      → field w ≡ field v
      → Holds m
      → Holds (insert id w m)
  Holds-replaced id v w m p same =
      Holds-insert id w m (λ e h. ground (arith, same, e, p, h.found, h.held))

  pub Holds-fresh :
      (id : String) (v : V) (m : Map V) → lookup id m ≡ none → Holds m → Holds (insert id v m)
  Holds-fresh id v m fresh = Holds-insert id v m (λ e h. absurd (ground (arith, e, fresh, h.found)))

  pub Holds-inserted : (v : V) (m : Map V) → field v ≡ x → Holds (insert k v m)
  Holds-inserted v m e = record {
    value = v;
    found = lookup-insert k k v m ∙ rw (eq_refl k);
    held = e;
  }
