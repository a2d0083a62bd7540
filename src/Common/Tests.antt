-- ===== src/Common/Tests.antt =====
-- Boolean tests, the conditional, and equality as an instance.
use Prim.Native.Nat.{ℕ, ◌≤◌, ◌<◌, compare, Ordering}
use mathlib.Core.Path.{◌≡◌, refl}
use mathlib.Core.Logic.{◌↔◌, ◌⊎◌, inl, inr}
use mathlib.Core.Bool.{Bool, true, false}
use mathlib.Core.Option.{Option, none, some}
use native.Mathlib.Omega.{arith}

abbrev pub ltb : ℕ → ℕ → Bool
ltb a b = elim (compare a b) [ Ordering.lt ↦ true | _ ↦ false ]

abbrev pub leb : ℕ → ℕ → Bool
leb a b = elim (compare a b) [ Ordering.gt ↦ false | _ ↦ true ]

abbrev pub nat_beq : ℕ → ℕ → Bool
nat_beq a b = elim (compare a b) [ Ordering.eq ↦ true | _ ↦ false ]

infix 1 if◌then◌else◌
abbrev pub if◌then◌else◌ {ℓ} : {A : Type ℓ} → Bool → A → A → A
if true then x else y = x
if false then x else y = y

pub nat_beq_iff : (a b : ℕ) → (nat_beq a b ≡ true) ↔ (a ≡ b)
nat_beq_iff a b = ground arith

pub ltb→lt : (a b : ℕ) → ltb a b ≡ true → a < b
ltb→lt a b h = ground arith

pub leb→le : (a b : ℕ) → leb a b ≡ true → a ≤ b
leb→le a b h = ground arith

abbrev pub min : ℕ → ℕ → ℕ
min a b = if leb a b then a else b

pub Bool-cases : (b : Bool) → (b ≡ true) ⊎ (b ≡ false)
Bool-cases true = inl refl
Bool-cases false = inr refl

pub Option-cases {ℓ} : {A : Type ℓ} (o : Option A) → (o ≡ none) ⊎ ((a : A) × (o ≡ some a))
Option-cases none = inl refl
Option-cases (some a) = inr (a, refl)

-- The Boolean equality of a type, as `PartialEq` gives it.
pub record Eq {ℓ} (T : Type ℓ) : Type ℓ where
  pub eqb : (left right : T) → Bool
  pub eqb_iff : (left right : T) → (eqb left right ≡ true) ↔ (left ≡ right)

instance abbrev pub nat_eq : Eq ℕ
nat_eq = record { eqb_iff = nat_beq_iff; eqb = nat_beq }

infix 50 ◌==◌
abbrev pub ◌==◌ {ℓ} : {T : Type ℓ} ⦃partial : Eq T⦄ → (left right : T) → Bool
◌==◌ ⦃partial⦄ left right = partial.eqb left right
