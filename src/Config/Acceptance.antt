-- ===== src/Config/Acceptance.antt =====
-- When a claim meets a requirement: the tests of authzoo/src/config.rs against a description that
-- names the value found.
use authzoo.Common.{
  ◌≡◌, refl, ◌↔◌, inl, inr, Option-cases, true, Option, none, some, List, [], ◌∷◌, Text,
  text_beq_iff, any, any_sound, any_complete, At, arith,
}
use mathlib.Core.Option.{some-injective}
use authzoo.Jwt.{Json}
use authzoo.Config.{
  ClaimRequirement, equals, any_of, detailed, contains, is_text, matches, holds_element,
  matches_value,
}

is_text_iff : (v : Option Text) (s : Text) → (is_text v s ≡ true) ↔ (v ≡ some s)
is_text_iff none s = ground arith
is_text_iff (some t) s = ground (arith, text_beq_iff t s)

any-is_text_iff :
    (v : Option Text) (ss : List Text)
    → (any (is_text v) ss ≡ true) ↔ ((s : Text) × At s ss × (v ≡ some s))
any-is_text_iff v ss = (
  λ h. let (s, at, hit) = any_sound (is_text v) ss h in (s, at, (is_text_iff v s).0 hit),
  λ (s, at, e). any_complete (is_text v) at ((is_text_iff v s).1 e),
)

-- The texts that a requirement on a string-valued claim lists.
abbrev pub listed : ClaimRequirement → List Text
listed (equals s) = s ∷ []
listed (any_of ss) = ss
listed (detailed d) = d.any_of
listed (contains _) = []

matches-listed : (r : ClaimRequirement) (v : Option Text) → matches r v ≡ any (is_text v) (listed r)
unfolding matches
matches-listed (equals s) v = ground arith
matches-listed (any_of ss) v = refl
matches-listed (detailed d) v = refl
matches-listed (contains c) v = refl

-- A string-valued claim matches exactly when it is present and is one of the listed texts; an
-- array requirement lists none.
pub matches_iff :
    (r : ClaimRequirement) (v : Option Text)
    → (matches r v ≡ true) ↔ ((s : Text) × At s (listed r) × (v ≡ some s))
matches_iff r v = rw (matches-listed r v) (any-is_text_iff v (listed r))

module _ {V : Type 0} (json : Json V) where
  open json use {as_str, as_array}

  -- A claim is a string among the listed ones, or an array with an element equal to the text that
  -- `contains` wants.
  abbrev pub Accepts : ClaimRequirement → Option V → Type 0
  Accepts r none = ⊥
  Accepts (contains c) (some v) =
      (vs : List V) × (as_array v ≡ some vs) × (w : V) × At w vs × (as_str w ≡ some c.contains)
  Accepts r (some v) = (s : Text) × At s (listed r) × (as_str v ≡ some s)

  holds_element_iff :
      (vs : List V) (s : Text)
      → (holds_element json (some vs) s ≡ true) ↔ ((w : V) × At w vs × (as_str w ≡ some s))
  unfolding holds_element
  holds_element_iff vs s = (
    λ h.
        let (w, at, hit) = any_sound (λ w. is_text (as_str w) s) vs h in
        (w, at, (is_text_iff (as_str w) s).0 hit),
    λ (w, at, e). any_complete (λ w. is_text (as_str w) s) at ((is_text_iff (as_str w) s).1 e),
  )

  -- `matches_value` accepts exactly the claims that the requirement describes: for `contains`, an
  -- array with an element equal to the text; for the others, one of the listed strings. An absent
  -- claim is never accepted.
  pub matches_value_iff :
      (r : ClaimRequirement) (v : Option V) → (matches_value json r v ≡ true) ↔ Accepts r v
  unfolding matches_value
  matches_value_iff (contains c) none = ((λ h. cc), λ h. absurd h)
  matches_value_iff (contains c) (some v) = elim (Option-cases (as_array v)) [
    | inl e ↦ rw e ((λ h. cc), λ (ws, e', w, at, f). cc)
    | inr (vs, e) ↦
        rw (e, matches_value)
          (
            λ h. let (w, at, f) = (holds_element_iff vs c.contains).0 h in (vs, refl, w, at, f),
            λ (ws, e', w, at, f).
                (holds_element_iff vs c.contains).1 (w, rw (← some-injective vs ws e') at at, f),
          )
  ]
  matches_value_iff r none = ((λ h. let (s, at, e) = (matches_iff r none).0 h in cc), λ h. absurd h)
  matches_value_iff r (some v) = matches_iff r (as_str v)
