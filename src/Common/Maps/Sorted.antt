-- ===== src/Common/Maps/Sorted.antt =====
-- The order of a `BTreeMap`'s entries.
use mathlib.Core.Path.{◌≡◌, subst}
use mathlib.Core.Logic.{inl, inr}
use mathlib.Core.Bool.{true, false}
use mathlib.Core.List.{[], ◌∷◌}
use native.Mathlib.Omega.{arith}
use authzoo.Common.Tests.{Bool-cases}
use authzoo.Common.Lists.{All}
use authzoo.Common.Strings.{Text, text_beq, text_beq_iff}
use authzoo.Common.Maps.Tree.{BTreeMap, precedes, insert}

precedes_irrefl : (s : Text) → precedes s s ≡ false
unfolding precedes
precedes_irrefl [] = ground arith
precedes_irrefl (a ∷ s) = ground (arith, precedes_irrefl s)

precedes_trans : (s t u : Text) → precedes s t ≡ true → precedes t u ≡ true → precedes s u ≡ true
unfolding precedes
precedes_trans [] [] u h k = cc
precedes_trans [] (b ∷ t) [] h k = cc
precedes_trans [] (b ∷ t) (c ∷ u) h k = ground arith
precedes_trans (a ∷ s) [] u h k = cc
precedes_trans (a ∷ s) (b ∷ t) [] h k = cc
precedes_trans (a ∷ s) (b ∷ t) (c ∷ u) h k = ground (arith, precedes_trans s t u)

precedes_total : (s t : Text) → text_beq t s ≡ false → precedes s t ≡ false → precedes t s ≡ true
unfolding precedes text_beq
precedes_total [] [] h k = cc
precedes_total [] (b ∷ t) h k = cc
precedes_total (a ∷ s) [] h k = ground arith
precedes_total (a ∷ s) (b ∷ t) h k = ground (arith, precedes_total s t)

module _ {V : Type 0} where
  -- The key precedes those of the entries.
  abbrev pub IsBefore : Text → BTreeMap V → Type 0
  IsBefore k m = All (λ entry. precedes k entry.0 ≡ true) m

  -- The entries are in the strict order of their keys.
  abbrev pub IsSorted : BTreeMap V → Type 0
  IsSorted [] = Unit
  IsSorted ((k, v) ∷ m) = IsBefore k m × IsSorted m

  IsBefore-precedes :
      (j k : Text) (m : BTreeMap V) → precedes j k ≡ true → IsBefore k m → IsBefore j m
  IsBefore-precedes j k [] h b = tt
  IsBefore-precedes j k ((i, w) ∷ m) h (first, rest) =
      (precedes_trans j k i h first, IsBefore-precedes j k m h rest)

  IsBefore-insert :
      (j k : Text) (v : V) (m : BTreeMap V)
      → precedes j k ≡ true
      → IsBefore j m
      → IsBefore j (insert k v m)
  unfolding insert
  IsBefore-insert j k v [] h b = (h, tt)
  IsBefore-insert j k v ((i, w) ∷ m) h (first, rest) =
      ground (arith, IsBefore-insert j k v m h rest)

  pub insert-IsSorted : (k : Text) (v : V) (m : BTreeMap V) → IsSorted m → IsSorted (insert k v m)
  unfolding insert
  insert-IsSorted k v [] h = (tt, tt)
  insert-IsSorted k v ((i, w) ∷ m) (first, rest) = elim (Bool-cases (text_beq i k)) [
    | inl same ↦ rw same (subst (λ j. IsBefore j m) ((text_beq_iff i k).0 same) first, rest)
    | inr differ ↦ elim (Bool-cases (precedes k i)) [
      | inl lower ↦ rw (differ, lower) ((lower, IsBefore-precedes k i m lower first), (first, rest))
      | inr higher ↦
          rw (differ, higher)
            (
              IsBefore-insert i k v m (precedes_total k i differ higher) first,
              insert-IsSorted k v m rest,
            )
    ]
  ]

-- A key that precedes another is not the same, whichever stands first.
pub precedes-differ :
    (j k : Text) → precedes j k ≡ true → (text_beq j k ≡ false) × (text_beq k j ≡ false)
precedes-differ j k h = elim (Bool-cases (text_beq j k)) [
  | inl same ↦ cc (precedes_irrefl k, (text_beq_iff j k).0 same, h)
  | inr differ ↦ (differ, ground (arith, text_beq_iff j k, text_beq_iff k j))
]
