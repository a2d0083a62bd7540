-- ===== src/Common/Lists.antt =====
-- Lists measured by native numbers, and tests on all and some of their elements.
use Prim.Native.Nat.{ℕ, suc, ◌+◌}
use mathlib.Core.Path.{◌≡◌, refl, sym}
use mathlib.Core.Bool.{Bool, true, false, ◌&&◌, ◌||◌}
use mathlib.Core.List.{List, [], ◌∷◌, ◌++◌}
use mathlib.Core.Logic.{◌↔◌, ◌≢◌, inl, inr}
use native.Mathlib.Omega.{arith}
use authzoo.Common.Tests.{if◌then◌else◌, Eq, ◌==◌, Bool-cases}

module _ {ℓ} {A : Type ℓ} where
  abbrev pub length : List A → ℕ
  length [] = 0
  length (x ∷ xs) = suc (length xs)

  abbrev pub is_empty : List A → Bool
  is_empty [] = true
  is_empty (x ∷ xs) = false

  abbrev pub any : (A → Bool) → List A → Bool
  any p [] = false
  any p (x ∷ xs) = p x || any p xs

  abbrev pub all : (A → Bool) → List A → Bool
  all p [] = true
  all p (x ∷ xs) = p x && all p xs

  -- `Iterator::filter`, and `Vec::retain`.
  abbrev pub keep : (A → Bool) → List A → List A
  keep p [] = []
  keep p (x ∷ xs) = if p x then x ∷ keep p xs else keep p xs

  pub length-append : (xs ys : List A) → length (xs ++ ys) ≡ length xs + length ys
  length-append [] ys = omega arith
  length-append (x ∷ xs) ys = omega (arith, length-append xs ys)

pub is_empty_iff {ℓ} : {A : Type ℓ} (xs : List A) → (is_empty xs ≡ true) ↔ (xs ≡ [])
is_empty_iff [] = ground arith
is_empty_iff (x ∷ xs) = ground arith

pub filled_iff {ℓ} : {A : Type ℓ} (xs : List A) → (is_empty xs ≡ false) ↔ (xs ≢ [])
filled_iff [] = ground arith
filled_iff (x ∷ xs) = ground arith

module _ {ℓ κ} {A : Type ℓ} where
  -- Every element has the property.
  abbrev pub All : (A → Type κ) → List A → Type κ
  All P [] = Unit
  All P (x ∷ xs) = P x × All P xs

-- An element of the list, at a place in it.
pub data At {ℓ} {A : Type ℓ} (a : A) : List A → Type ℓ where
  here : {x : A} {xs : List A} → a ≡ x → At a (x ∷ xs)
  there : {x : A} {xs : List A} → At a xs → At a (x ∷ xs)

module _ {ℓ} {A : Type ℓ} ⦃e : Eq A⦄ where
  abbrev pub contains : A → List A → Bool
  contains a [] = false
  contains a (x ∷ xs) = x == a || contains a xs

module _ {ℓ} {A : Type ℓ} (p : A → Bool) where
  -- `any` finds an element that passes the test.
  pub any_sound : (xs : List A) → any p xs ≡ true → (a : A) × At a xs × (p a ≡ true)
  any_sound [] h = cc
  any_sound (x ∷ xs) h = elim (Bool-cases (p x)) [
    | inl hit ↦ (x, here refl, hit)
    | inr miss ↦ let (a, at, hit) = any_sound xs (ground arith) in (a, there at, hit)
  ]

  pub any_complete : {a : A} {xs : List A} → At a xs → p a ≡ true → any p xs ≡ true
  any_complete (here {x} e) h = ground arith
  any_complete (there {x} at) h = ground (arith, any_complete at h)

module _ {ℓ} {A : Type ℓ} (p : A → Bool) (xs : List A) where
  -- `any` finds nothing exactly if every element fails the test.
  pub any_avoids : any p xs ≡ false → (x : A) → At x xs → p x ≡ false
  any_avoids h x at = elim (Bool-cases (p x)) [
    | inl hit ↦ cc (any_complete p at hit)
    | inr miss ↦ miss
  ]

  pub any_none : ((x : A) → At x xs → p x ≡ false) → any p xs ≡ false
  any_none avoids = elim (Bool-cases (any p xs)) [
    | inl hit ↦ let (x, at, pass) = any_sound p xs hit in cc (avoids x at)
    | inr miss ↦ miss
  ]

-- `contains` finds exactly the elements of the list.
pub contains_iff {ℓ} :
    {A : Type ℓ} ⦃e : Eq A⦄ (a : A) (xs : List A) → (contains a xs ≡ true) ↔ At a xs
contains_iff a [] = ((λ h. cc), λ at. elim at [ ])
contains_iff ⦃e⦄ a (x ∷ xs) = of_rest (contains_iff a xs)
  where
    of_rest : (contains a xs ≡ true) ↔ At a xs → (contains a (x ∷ xs) ≡ true) ↔ At a (x ∷ xs)
    of_rest (to, of) = (
      λ h. elim (Bool-cases (x == a)) [
        | inl same ↦ here (sym ((e.eqb_iff x a).0 same))
        | inr differ ↦ there (to (rw differ at h))
      ],
      λ at. elim at [
        | here eq ↦ ground (arith, (e.eqb_iff x a).1 (sym eq))
        | there later ↦ ground (arith, of later)
      ],
    )
