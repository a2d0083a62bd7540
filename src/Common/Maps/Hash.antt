-- ===== src/Common/Maps/Hash.antt =====
-- `HashMap` over keys with an equality.
use Prim.Native.Nat.{◌≤◌, ◌<◌}
use mathlib.Core.Path.{◌≡◌}
use mathlib.Core.Option.{Option, none, some}
use mathlib.Core.List.{List, [], ◌∷◌}
use native.Mathlib.Omega.{arith}
use authzoo.Common.Tests.{if◌then◌else◌, Eq, ◌==◌}
use authzoo.Common.Lists.{length}

abbrev pub HashMap {ℓ} : Type ℓ → Type ℓ → Type ℓ
HashMap K V = List (K × V)

module _ {ℓ} {K V : Type ℓ} ⦃e : Eq K⦄ where
  unfoldable pub get : K → HashMap K V → Option V
  get k [] = none
  get k ((j, v) ∷ m) = if j == k then some v else get k m

  unfoldable pub remove : K → HashMap K V → HashMap K V
  remove k [] = []
  remove k ((j, v) ∷ m) = if j == k then remove k m else (j, v) ∷ remove k m

  unfoldable pub insert : K → V → HashMap K V → HashMap K V
  insert k v m = (k, v) ∷ remove k m

  pub get-remove :
      (k j : K) (m : HashMap K V) → get j (remove k m) ≡ (if k == j then none else get j m)
  unfolding get remove
  get-remove k j [] = ground arith
  get-remove k j ((i, v) ∷ m) =
      ground (arith, e.eqb_iff k j, e.eqb_iff i k, e.eqb_iff i j, get-remove k j m)

  pub get-insert :
      (k j : K) (v : V) (m : HashMap K V)
      → get j (insert k v m) ≡ (if k == j then some v else get j m)
  unfolding get insert
  get-insert k j v m = ground (arith, get-remove k j m)

  pub length-remove-le : (k : K) (m : HashMap K V) → length (remove k m) ≤ length m
  unfolding remove
  length-remove-le k [] = omega arith
  length-remove-le k ((j, v) ∷ m) = ground (arith, length-remove-le k m)

  pub length-remove-lt :
      (k : K) (m : HashMap K V) (v : V) → get k m ≡ some v → length (remove k m) < length m
  unfolding get remove
  length-remove-lt k [] v h = cc
  length-remove-lt k ((j, w) ∷ m) v h = ground (arith, length-remove-le k m, length-remove-lt k m v)
