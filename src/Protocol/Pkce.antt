-- ===== src/Protocol/Pkce.antt =====
-- Which code verifiers authzoo-oauth/src/protocol.rs accepts for a challenge.
use authzoo.Common.{
  ℕ, ◌≡◌, ◌≢◌, ◌↔◌, ◌⊎◌, inl, inr, ap, true, false, Bool-cases, List, Text, text_beq, text_beq_iff,
  bytes,
}
use authzoo.Protocol.{verify_pkce}

-- Two inputs of a hash function with the same digest.
pub record Collide (digest : List ℕ → List ℕ) (a b : List ℕ) : Type 0 where
  pub apart : a ≢ b
  pub same : digest a ≡ digest b

collision_or_same :
    (digest : List ℕ → List ℕ) (a b : List ℕ) → digest a ≡ digest b → (a ≡ b) ⊎ Collide digest a b
collision_or_same digest a b same = elim (Bool-cases (text_beq a b)) [
  | inl e ↦ inl ((text_beq_iff a b).0 e)
  | inr differ ↦
      inr
        (record { apart = λ e. elim (absurd_of differ ((text_beq_iff a b).1 e)) [ ]; same = same })
]
  where
    absurd_of : text_beq a b ≡ false → text_beq a b ≡ true → ⊥
    absurd_of f t = cc

-- `verify_pkce` accepts exactly the verifiers whose S256 challenge has the bytes of the expected one,
-- unless the two challenges are a collision of the hash function.
pub verify_pkce_iff :
    (digest : List ℕ → List ℕ) (encode : List ℕ → Text) (code_verifier expected_challenge : Text)
    → (verify_pkce digest encode code_verifier expected_challenge ≡ true) ↔ (
        (bytes (encode (digest (bytes code_verifier))) ≡ bytes expected_challenge)
        ⊎ Collide digest (bytes (encode (digest (bytes code_verifier)))) (bytes expected_challenge))
unfolding verify_pkce
verify_pkce_iff digest encode code_verifier expected_challenge =
    let challenge = bytes (encode (digest (bytes code_verifier))) in
    let expected = bytes expected_challenge in
    let (to, of) = text_beq_iff (digest challenge) (digest expected) in
    (
      λ h. collision_or_same digest challenge expected (to h),
      λ s. of (elim s [ inl e ↦ ap digest e | inr collide ↦ collide.same ]),
    )
