-- ===== src/KeyCache/Order.antt =====
-- Entries in the order of a queue of keys: the lemmas on queues and maps behind the cache of
-- authzoo/src/discovery.rs.
use authzoo.Common.{
  ℕ, zero, suc, ◌+◌, ◌≡◌, refl, Bool, true, false, not, ◌||◌, none, some, List, [], ◌∷◌, ◌++◌,
  length, keep, contains, Eq, ◌==◌, arith, if◌then◌else◌,
}
use authzoo.Common.Maps.Hash
use authzoo.Common.Maps.Hash.{HashMap, get-remove, get-insert}

module _ {ℓ} {A : Type ℓ} where
  abbrev pub drop : ℕ → List A → List A
  drop zero xs = xs
  drop (suc n) [] = []
  drop (suc n) (x ∷ xs) = drop n xs

module _ {ℓ} {K : Type ℓ} ⦃e : Eq K⦄ where
  -- The queue without a key.
  abbrev pub without : K → List K → List K
  without k = keep (λ candidate. not (candidate == k))

  abbrev pub IsDistinct : List K → Type ℓ
  IsDistinct [] = Unit
  IsDistinct (k ∷ r) = (contains k r ≡ false) × IsDistinct r

  pub ==-self : (k : K) → (k == k) ≡ true
  ==-self k = (e.eqb_iff k k).1 refl

  pub contains-without :
      (k j : K) (r : List K) → contains j (without k r) ≡ (if k == j then false else contains j r)
  contains-without k j [] = ground arith
  contains-without k j (i ∷ r) =
      ground (arith, e.eqb_iff k j, e.eqb_iff i k, e.eqb_iff i j, contains-without k j r)

  pub without_absent : (k : K) (r : List K) → contains k r ≡ false → without k r ≡ r
  without_absent k [] h = refl
  without_absent k (i ∷ r) h = ground (arith, without_absent k r)

  pub contains-concat : (j k : K) (r : List K) → contains j (r ++ k ∷ []) ≡ (contains j r || k == j)
  contains-concat j k [] = ground arith
  contains-concat j k (i ∷ r) = ground (arith, contains-concat j k r)

  pub without-IsDistinct : (k : K) (r : List K) → IsDistinct r → IsDistinct (without k r)
  without-IsDistinct k [] h = tt
  without-IsDistinct k (i ∷ r) (fresh, d) =
      ground (arith, without-IsDistinct k r d, contains-without k i r)

  pub concat-IsDistinct :
      (k : K) (r : List K) → contains k r ≡ false → IsDistinct r → IsDistinct (r ++ k ∷ [])
  concat-IsDistinct k [] h d = (refl, tt)
  concat-IsDistinct k (i ∷ r) h (fresh, d) =
      ground (arith, contains-concat i k r, e.eqb_iff k i, e.eqb_iff i k, concat-IsDistinct k r)

module _ {ℓ} {K V : Type ℓ} ⦃e : Eq K⦄ where
  abbrev pub has : K → HashMap K V → Bool
  has k m = elim (Hash.get k m) [ none ↦ false | some _ ↦ true ]

  -- Each key once, as in every `HashMap`.
  abbrev pub HasDistinctKeys : HashMap K V → Type ℓ
  HasDistinctKeys [] = Unit
  HasDistinctKeys ((k, v) ∷ m) = (Hash.get k m ≡ none) × HasDistinctKeys m

  pub remove-HasDistinctKeys :
      (k : K) (m : HashMap K V) → HasDistinctKeys m → HasDistinctKeys (Hash.remove k m)
  unfolding Hash.remove
  remove-HasDistinctKeys k [] d = tt
  remove-HasDistinctKeys k ((j, v) ∷ m) (fresh, d) =
      ground (arith, get-remove k j m, remove-HasDistinctKeys k m d)

  pub insert-HasDistinctKeys :
      (k : K) (v : V) (m : HashMap K V) → HasDistinctKeys m → HasDistinctKeys (Hash.insert k v m)
  unfolding Hash.insert
  insert-HasDistinctKeys k v m d =
      ground (arith, get-remove k k m, ==-self k, remove-HasDistinctKeys k m d)

  pub remove_absent : (k : K) (m : HashMap K V) → Hash.get k m ≡ none → Hash.remove k m ≡ m
  unfolding Hash.remove Hash.get
  remove_absent k [] h = refl
  remove_absent k ((j, v) ∷ m) h = ground (arith, remove_absent k m)

  pub length-remove :
      (k : K) (m : HashMap K V) (v : V)
      → HasDistinctKeys m
      → Hash.get k m ≡ some v
      → length (Hash.remove k m) + 1 ≡ length m
  unfolding Hash.remove Hash.get
  length-remove k [] v d h = cc
  length-remove k ((j, w) ∷ m) v (fresh, d) h =
      ground (arith, e.eqb_iff j k, remove_absent k m, length-remove k m v d)

  -- The entries of the keys in the queue, in its order.
  unfoldable pub collect : List K → HashMap K V → List (K × V)
  collect [] m = []
  collect (k ∷ r) m = elim (Hash.get k m) [ none ↦ collect r m | some v ↦ (k, v) ∷ collect r m ]

  pub collect-concat :
      (r : List K) (k : K) (m : HashMap K V)
      → collect (r ++ k ∷ []) m ≡ collect r m ++ collect (k ∷ []) m
  unfolding collect
  collect-concat [] k m = ground arith
  collect-concat (j ∷ r) k m = ground (arith, collect-concat r k m)

  pub collect-remove :
      (k : K) (r : List K) (m : HashMap K V)
      → contains k r ≡ false
      → collect r (Hash.remove k m) ≡ collect r m
  unfolding collect
  collect-remove k [] m h = refl
  collect-remove k (j ∷ r) m h =
      ground (arith, get-remove k j m, e.eqb_iff k j, e.eqb_iff j k, collect-remove k r m)

  pub collect-insert :
      (k : K) (v : V) (r : List K) (m : HashMap K V)
      → contains k r ≡ false
      → collect r (Hash.insert k v m) ≡ collect r m
  unfolding collect
  collect-insert k v [] m h = refl
  collect-insert k v (j ∷ r) m h =
      ground (arith, get-insert k j v m, e.eqb_iff k j, e.eqb_iff j k, collect-insert k v r m)

  -- Taking a key off the queue takes its entry off the entries.
  pub collect-without :
      (k : K) (r : List K) (m : HashMap K V) → collect (without k r) m ≡ Hash.remove k (collect r m)
  unfolding collect Hash.remove
  collect-without k [] m = refl
  collect-without k (j ∷ r) m = ground (arith, collect-without k r m)
