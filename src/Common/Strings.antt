-- ===== src/Common/Strings.antt =====
-- Rust's `str` and `String`: a text is the list of its Unicode scalar values. Positions that the
-- source finds and slices at are character boundaries; `len` and `bytes` go through UTF-8.
use Prim.Native.Char.{code}
use Prim.Native.String.{String}
use Prim.Native.Nat.{ℕ, ◌+◌, ◌/◌, ◌%◌}
use mathlib.Core.Path.{◌≡◌, refl}
use mathlib.Core.Bool.{Bool, true, false, ◌&&◌, ◌||◌}
use mathlib.Core.Logic.{◌↔◌, ◌⊎◌, inl, inr}
use mathlib.Core.Option.{Option, none, some}
use mathlib.Core.List.{List, [], ◌∷◌, ◌++◌}
use native.Mathlib.Omega.{arith}
use authzoo.Common.Tests.{ltb, leb, nat_beq, if◌then◌else◌, Eq, Option-cases}
use authzoo.Common.Lists.{is_empty, length}

abbrev pub Text : Type 0
Text = List ℕ

-- A literal.
abbrev pub text : String → Text
text String.[] = []
text (String.◌∷◌ c s) = code c ∷ text s

unfoldable pub text_beq : Text → Text → Bool
text_beq [] [] = true
text_beq (a ∷ s) (b ∷ t) = nat_beq a b && text_beq s t
text_beq _ _ = false

pub text_beq_iff : (s t : Text) → (text_beq s t ≡ true) ↔ (s ≡ t)
unfolding text_beq
text_beq_iff [] [] = ((λ _. refl), λ _. refl)
text_beq_iff (a ∷ s) [] = ((λ h. cc), λ h. cc)
text_beq_iff [] (b ∷ t) = ((λ h. cc), λ h. cc)
text_beq_iff (a ∷ s) (b ∷ t) = ground (arith, text_beq_iff s t)

instance abbrev pub text_eq : Eq Text
text_eq = record { eqb = text_beq; eqb_iff = text_beq_iff }

-- UTF-8.
abbrev pub utf8 : ℕ → List ℕ
utf8 c =
    if ltb c 0x80
    then c ∷ []
    else if ltb c 0x800
    then (0xc0 + c / 64) ∷ (0x80 + c % 64) ∷ []
    else if ltb c 0x10000
    then (0xe0 + c / 4096) ∷ (0x80 + (c / 64) % 64) ∷ (0x80 + c % 64) ∷ []
    else (0xf0 + c / 262144)
      ∷ (0x80 + (c / 4096) % 64)
      ∷ (0x80 + (c / 64) % 64)
      ∷ (0x80 + c % 64)
      ∷ []

-- `str::bytes` and `str::len`.
unfoldable pub bytes : Text → List ℕ
bytes [] = []
bytes (c ∷ s) = utf8 c ++ bytes s

abbrev pub len : Text → ℕ
len s = length (bytes s)

-- `char::is_whitespace`: the White_Space property.
unfoldable pub is_whitespace : ℕ → Bool
is_whitespace c =
    (leb 9 c && leb c 13)
    || nat_beq c 32
    || nat_beq c 0x85
    || nat_beq c 0xa0
    || nat_beq c 0x1680
    || (leb 0x2000 c && leb c 0x200a)
    || nat_beq c 0x2028
    || nat_beq c 0x2029
    || nat_beq c 0x202f
    || nat_beq c 0x205f
    || nat_beq c 0x3000

unfoldable pub trim_start_matches : (ℕ → Bool) → Text → Text
trim_start_matches p [] = []
trim_start_matches p (c ∷ s) = if p c then trim_start_matches p s else c ∷ s

-- A character stays if it, or a later one, fails the test.
unfoldable pub trim_end_matches : (ℕ → Bool) → Text → Text
trim_end_matches p [] = []
trim_end_matches p (c ∷ s) =
    let rest = trim_end_matches p s in if is_empty rest && p c then [] else c ∷ rest

-- `str::trim_start`, `str::trim`.
abbrev pub trim_start : Text → Text
trim_start = trim_start_matches is_whitespace

abbrev pub trim : Text → Text
trim s = trim_end_matches is_whitespace (trim_start s)

-- `str::strip_prefix`.
unfoldable pub strip_prefix : Text → Text → Option Text
strip_prefix [] s = some s
strip_prefix (p ∷ ps) [] = none
strip_prefix (p ∷ ps) (c ∷ s) = if nat_beq p c then strip_prefix ps s else none

abbrev pub starts_with : Text → Text → Bool
starts_with p s = elim (strip_prefix p s) [ none ↦ false | some _ ↦ true ]

pub strip_prefix-eq-some_iff : (p s r : Text) → (strip_prefix p s ≡ some r) ↔ (s ≡ p ++ r)
unfolding strip_prefix
strip_prefix-eq-some_iff [] s r = ground arith
strip_prefix-eq-some_iff (p ∷ ps) [] r = ground arith
strip_prefix-eq-some_iff (p ∷ ps) (c ∷ s) r = ground (arith, strip_prefix-eq-some_iff ps s r)

pub starts_with_iff : (p s : Text) → (starts_with p s ≡ true) ↔ ((rest : Text) × (s ≡ p ++ rest))
starts_with_iff p s = elim (Option-cases (strip_prefix p s)) [
  | inl absent ↦ (
    λ h. cc (rw (absent, starts_with) at h),
    λ (rest, e). cc ((strip_prefix-eq-some_iff p s rest).1 e),
  )
  | inr (rest, found) ↦
      (λ h. (rest, (strip_prefix-eq-some_iff p s rest).0 found), λ e. rw (found, starts_with) refl)
]

pub one_of_iff : (x a b : Text) → ((text_beq x a || text_beq x b) ≡ true) ↔ ((x ≡ a) ⊎ (x ≡ b))
one_of_iff x a b = ground (arith, text_beq_iff x a, text_beq_iff x b)
