-- ===== src/Common/Maps/Tree.antt =====
-- `BTreeMap` with texts for keys.
use mathlib.Core.Path.{◌≡◌, refl}
use mathlib.Core.Bool.{Bool, true, false, ◌&&◌, ◌||◌}
use mathlib.Core.Option.{Option, none, some}
use mathlib.Core.List.{List, [], ◌∷◌}
use native.Mathlib.Omega.{arith}
use authzoo.Common.Tests.{if◌then◌else◌, ltb, nat_beq}
use authzoo.Common.Strings.{Text, text_beq, text_beq_iff}

abbrev pub BTreeMap {ℓ} : Type ℓ → Type ℓ
BTreeMap V = List (Text × V)

-- The order of texts.
unfoldable pub precedes : Text → Text → Bool
precedes [] [] = false
precedes [] (b ∷ t) = true
precedes (a ∷ s) [] = false
precedes (a ∷ s) (b ∷ t) = ltb a b || (nat_beq a b && precedes s t)

module _ {ℓ} {V : Type ℓ} where
  unfoldable pub get : Text → BTreeMap V → Option V
  get k [] = none
  get k ((j, v) ∷ m) = if text_beq j k then some v else get k m

  unfoldable pub contains_key : Text → BTreeMap V → Bool
  contains_key k m = elim (get k m) [ none ↦ false | some _ ↦ true ]

  unfoldable pub insert : Text → V → BTreeMap V → BTreeMap V
  insert k v [] = (k, v) ∷ []
  insert k v ((j, w) ∷ m) =
      if text_beq j k
      then (k, v) ∷ m
      else if precedes k j
      then (k, v) ∷ (j, w) ∷ m
      else (j, w) ∷ insert k v m

  pub get-insert :
      (k j : Text) (v : V) (m : BTreeMap V)
      → get j (insert k v m) ≡ (if text_beq k j then some v else get j m)
  unfolding get insert
  get-insert k j v [] = refl
  get-insert k j v ((i, w) ∷ m) =
      ground (arith, text_beq_iff k j, text_beq_iff i k, text_beq_iff i j, get-insert k j v m)
