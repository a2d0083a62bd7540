-- ===== src/Metadata/Resolution/Entries.antt =====
-- The entries of the cache of authzoo-oauth/src/client_metadata.rs that `resolve_metadata` leaves.
use authzoo.Common.{
  ℕ, suc, ◌+◌, ◌*◌, ◌≤◌, ◌≡◌, sym, ◌⊎◌, inl, inr, true, false, Bool-cases, some, [], ◌∷◌, Text, All,
  length, leb, ltb, nat_beq, text_beq, text_beq_iff, text_eq, arith, if◌then◌else◌,
}
use authzoo.Common.Maps.Hash
use authzoo.Common.Maps.Hash.{HashMap}
use authzoo.Client.{Client}
use authzoo.Metadata.Resolution.{max_cache_entries, retain_live, remember}

abbrev pub Entry : Type 0
Entry = Text × (ℕ × Client)

-- What holds of every entry of a map holds of those that are left.
module _ (P : Entry → Type 0) where
  pub get-All :
      (id : Text) (m : HashMap Text (ℕ × Client)) (expiry : ℕ) (client : Client)
      → All P m
      → Hash.get id m ≡ some (expiry, client)
      → P (id, (expiry, client))
  unfolding Hash.get
  get-All id [] expiry client v h = cc
  get-All id ((k, (e, c)) ∷ m) expiry client v h = elim (Bool-cases (text_beq k id)) [
    | inl same ↦
        let ek = (text_beq_iff k id).0 same in
        let ee : e ≡ expiry = cc (rw same at h) in
        let ec : c ≡ client = cc (rw same at h) in rw (sym ek, sym ee, sym ec) (v.0)
    | inr differ ↦ get-All id m expiry client v.1 (rw differ at h)
  ]

  remove-All : (id : Text) (m : HashMap Text (ℕ × Client)) → All P m → All P (Hash.remove id m)
  unfolding Hash.remove
  remove-All id [] v = tt
  remove-All id ((k, (e, c)) ∷ m) v = elim (Bool-cases (text_beq k id)) [
    | inl same ↦ rw same (remove-All id m v.1)
    | inr differ ↦ rw differ (v.0, remove-All id m v.1)
  ]

  retain_live-All :
      (now : ℕ → ℕ) (n : ℕ) (m : HashMap Text (ℕ × Client)) → All P m → All P (retain_live now n m)
  unfolding retain_live
  retain_live-All now n [] v = tt
  retain_live-All now n ((k, (e, c)) ∷ m) v = elim (Bool-cases (ltb (now n) e)) [
    | inl live ↦ rw live (v.0, retain_live-All now (suc n) m v.1)
    | inr expired ↦ rw expired (retain_live-All now (suc n) m v.1)
  ]

  pub remember-All :
      (now : ℕ → ℕ) (n : ℕ) (id : Text) (client : Client) (ttl : ℕ) (m : HashMap Text (ℕ × Client))
      → P (id, (now (n + length m) + ttl * 1000000000, client))
      → All P m × (length m ≤ max_cache_entries)
      → All P (remember now n id client ttl m)
        × (length (remember now n id client ttl m) ≤ max_cache_entries)
  unfolding remember Hash.insert Hash.remove
  remember-All now n id client ttl m c (v, l) = elim (Bool-cases (nat_beq ttl 0)) [
    | inl zero ↦ rw zero (v, l)
    | inr kept ↦
        rw kept (stored (Bool-cases (leb max_cache_entries (length (retain_live now n m)))))
  ]
    where
      live : HashMap Text (ℕ × Client)
      live = retain_live now n m

      room : HashMap Text (ℕ × Client)
      room = if leb max_cache_entries (length live) then [] else live

      inserted : HashMap Text (ℕ × Client)
      inserted = (id, (now (n + length m) + ttl * 1000000000, client)) ∷ Hash.remove id room

      stored :
          (leb max_cache_entries (length live) ≡ true)
            ⊎ (leb max_cache_entries (length live) ≡ false)
          → All P inserted × (length inserted ≤ max_cache_entries)
      stored (inl full) = rw full ((c, tt), ground arith)
      stored (inr vacant) = rw vacant (
        (c, remove-All id live (retain_live-All now n m v)),
        ground (arith, Hash.length-remove-le id live),
      )

pub All-map :
    (P Q : Entry → Type 0) (m : HashMap Text (ℕ × Client))
    → ((e : Entry) → P e → Q e)
    → All P m
    → All Q m
All-map P Q [] f h = tt
All-map P Q (e ∷ m) f (h, k) = (f e h, All-map P Q m f k)
