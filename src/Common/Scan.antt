-- ===== src/Common/Scan.antt =====
-- `str::find` with the slices before and after the place found, `split`, and tests on bytes.
use Prim.Native.Nat.{ℕ, ◌+◌, ◌*◌, ◌-◌}
use mathlib.Core.Path.{◌≡◌, refl}
use mathlib.Core.Logic.{inl, inr}
use mathlib.Core.Bool.{Bool, true, false, ◌&&◌, ◌||◌}
use mathlib.Core.Option.{Option, none, some}
use mathlib.Core.List.{List, [], ◌∷◌, ◌++◌}
use native.Mathlib.Omega.{arith}
use authzoo.Common.Tests.{ltb, leb, nat_beq, if◌then◌else◌, Bool-cases, Option-cases}
use authzoo.Common.Lists.{is_empty, All}
use authzoo.Common.Strings.{Text, trim_start_matches, trim_end_matches}

-- `&s[..i]` and `&s[i..]`, where `i` is the place of the first such character, or else the end.
unfoldable pub before_first : (ℕ → Bool) → Text → Text
before_first p [] = []
before_first p (c ∷ s) = if p c then [] else c ∷ before_first p s

unfoldable pub from_first : (ℕ → Bool) → Text → Text
from_first p [] = []
from_first p (c ∷ s) = if p c then c ∷ s else from_first p s

abbrev pub after_head : ℕ → Option (Text × Text) → Option (Text × Text)
after_head c none = none
after_head c (some (before, after)) = some (c ∷ before, after)

-- `&s[..=i]` and `&s[i + 1..]`, where `i` is the place of the first such character.
unfoldable pub split_after : (ℕ → Bool) → Text → Option (Text × Text)
split_after p [] = none
split_after p (c ∷ s) = if p c then some (c ∷ [], s) else after_head c (split_after p s)

abbrev pub cons_first : ℕ → List Text → List Text
cons_first c [] = (c ∷ []) ∷ []
cons_first c (w ∷ ws) = (c ∷ w) ∷ ws

-- `str::split` at a character.
unfoldable pub split : ℕ → Text → List Text
split sep [] = [] ∷ []
split sep (c ∷ s) = if nat_beq c sep then [] ∷ split sep s else cons_first c (split sep s)

abbrev pub trim_matches : (ℕ → Bool) → Text → Text
trim_matches p s = trim_end_matches p (trim_start_matches p s)

abbrev pub is_ascii_digit : ℕ → Bool
is_ascii_digit b = leb 48 b && leb b 57

abbrev pub is_ascii_uppercase : ℕ → Bool
is_ascii_uppercase b = leb 65 b && leb b 90

abbrev pub is_ascii_alphanumeric : ℕ → Bool
is_ascii_alphanumeric b = is_ascii_digit b || is_ascii_uppercase b || (leb 97 b && leb b 122)

unfoldable pub to_ascii_lowercase : Text → Text
to_ascii_lowercase [] = []
to_ascii_lowercase (c ∷ s) = (if is_ascii_uppercase c then c + 32 else c) ∷ to_ascii_lowercase s

unfoldable pub digits_value : ℕ → Text → Option ℕ
digits_value n [] = some n
digits_value n (c ∷ s) = if is_ascii_digit c then digits_value (n * 10 + (c - 48)) s else none

abbrev pub unsigned : Text → Text
unsigned [] = []
unsigned (c ∷ s) = if nat_beq c 43 then s else c ∷ s

abbrev pub fitting_u64 : Option ℕ → Option ℕ
fitting_u64 none = none
fitting_u64 (some n) = if ltb n 0x10000000000000000 then some n else none

-- `str::parse::<u64>`: digits, at least one, after an optional `+`.
unfoldable pub parse_u64 : Text → Option ℕ
parse_u64 s = if is_empty (unsigned s) then none else fitting_u64 (digits_value 0 (unsigned s))

pub before_first-from_first : (p : ℕ → Bool) (s : Text) → before_first p s ++ from_first p s ≡ s
unfolding before_first from_first
before_first-from_first p [] = refl
before_first-from_first p (c ∷ s) = ground (arith, before_first-from_first p s)

-- No character passes the test.
abbrev pub Lacks : (ℕ → Bool) → Text → Type 0
Lacks p s = All (λ c. p c ≡ false) s

-- Empty, or headed by a character that passes the test.
abbrev pub Begins : (ℕ → Bool) → Text → Type 0
Begins p [] = Unit
Begins p (c ∷ s) = p c ≡ true

pub before_first-Lacks : (p : ℕ → Bool) (s : Text) → Lacks p (before_first p s)
unfolding before_first
before_first-Lacks p [] = tt
before_first-Lacks p (c ∷ s) = ground (arith, before_first-Lacks p s)

pub from_first-Begins : (p : ℕ → Bool) (s : Text) → Begins p (from_first p s)
unfolding from_first
from_first-Begins p [] = tt
from_first-Begins p (c ∷ s) = ground (arith, from_first-Begins p s)

pub split_after-eq :
    (p : ℕ → Bool) (s before after : Text)
    → split_after p s ≡ some (before, after)
    → before ++ after ≡ s
unfolding split_after
split_after-eq p [] before after h = cc
split_after-eq p (c ∷ s) before after h = elim (Bool-cases (p c)) [
  | inl hit ↦ ground arith
  | inr miss ↦ elim (Option-cases (split_after p s)) [
    | inl absent ↦ cc (rw (miss, absent) at h)
    | inr ((b, a), found) ↦
        let ih = split_after-eq p s b a found in
        let same = rw (miss, found) at h in ground (arith, ih, same)
  ]
]

-- A split into a part that lacks such characters and one that begins with one is unique.
pub Lacks-Begins-unique :
    (p : ℕ → Bool) (a b s t : Text)
    → Lacks p a
    → Lacks p b
    → Begins p s
    → Begins p t
    → a ++ s ≡ b ++ t
    → (a ≡ b) × (s ≡ t)
Lacks-Begins-unique p [] [] s t la lb bs bt e = (refl, e)
Lacks-Begins-unique p [] (c ∷ b) [] t la lb bs bt e = cc
Lacks-Begins-unique p [] (c ∷ b) (d ∷ s) t la lb bs bt e = ground arith
Lacks-Begins-unique p (c ∷ a) [] s [] la lb bs bt e = cc
Lacks-Begins-unique p (c ∷ a) [] s (d ∷ t) la lb bs bt e = ground arith
Lacks-Begins-unique p (c ∷ a) (d ∷ b) s t la lb bs bt e =
    let ih = Lacks-Begins-unique p a b s t (la.1) (lb.1) bs bt in ground (arith, ih)
