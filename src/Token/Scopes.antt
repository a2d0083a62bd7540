-- ===== src/Token/Scopes.antt =====
-- The `scope` claim of authzoo-oauth/src/token.rs, read back as authzoo-oauth/src/protocol.rs reads scopes.
use authzoo.Common.{
  ℕ, ◌≡◌, refl, ap, ◌∙◌, ◌≢◌, Bool, List, [], ◌∷◌, ◌++◌, Text, All, Lacks, split, nat_beq, keep, ok,
  arith,
}
use authzoo.Url.{Urls}
use authzoo.Client.{Client}
use authzoo.Protocol.{
  AuthorizationRequest, AuthorizationPolicy, PendingAuthorizationRequest, not_blank, parse_scopes,
  validate_authorization_request,
}
use authzoo.Protocol.Scopes.{IsWord, parse_scopes-IsWord}
use authzoo.Protocol.Acceptance.{validate_authorization_request_iff}
use authzoo.Token.{Chrono, Principal, TokenIssuer, AccessTokenClaims}
use authzoo.Token.Minting.{join, access_token_claims}
use authzoo.Token.Claims.{access_token_claims-IsGrant}

abbrev is_space : ℕ → Bool
is_space c = nat_beq c 32

split_word : (w : Text) → Lacks is_space w → split 32 w ≡ w ∷ []
unfolding split
split_word [] h = refl
split_word (c ∷ w) h = ground (arith, split_word w h.1)

-- A word, a space and the rest.
split_words : (w rest : Text) → Lacks is_space w → split 32 (w ++ (32 ∷ rest)) ≡ w ∷ split 32 rest
unfolding split
split_words [] rest h = refl
split_words (c ∷ w) rest h = ground (arith, split_words w rest h.1)

split-join : (w : Text) (ws : List Text) → All IsWord (w ∷ ws) → split 32 (join (w ∷ ws)) ≡ w ∷ ws
unfolding join
split-join w [] (h, _) = split_word w h.1
split-join w (v ∷ ws) (h, t) =
    split_words w (join (v ∷ ws)) h.1 ∙ ap (λ l. w ∷ l) (split-join v ws t)

keep-not_blank : (ws : List Text) → All IsWord ws → keep not_blank ws ≡ ws
keep-not_blank [] h = refl
keep-not_blank ([] ∷ ws) (h, t) = absurd (h.0 refl)
keep-not_blank ((c ∷ w) ∷ ws) (h, t) = ap (λ l. (c ∷ w) ∷ l) (keep-not_blank ws t)

-- Words that are joined by spaces parse back.
pub parse_scopes-join :
    (scopes : List Text) → scopes ≢ [] → All IsWord scopes → parse_scopes (join scopes) ≡ ok scopes
unfolding parse_scopes
parse_scopes-join [] filled words = absurd (filled refl)
parse_scopes-join (w ∷ ws) filled words =
    rw (split-join w ws words, keep-not_blank (w ∷ ws) words) refl

-- The scope claim of a token that is minted for the scopes of an accepted request parses back to
-- these scopes.
pub parse_scopes-scope :
    (urls : Urls) (request : AuthorizationRequest) (client : Client) (policy : AuthorizationPolicy)
    (pending : PendingAuthorizationRequest) (chrono : Chrono) (random : Text) (issuer : TokenIssuer)
    (principal : Principal) (now expires_at : ℕ) (claims : AccessTokenClaims)
    → validate_authorization_request urls request client policy ≡ ok pending
    → access_token_claims chrono random issuer principal
        (record {
          client_id = pending.client_id;
          resource = pending.resource;
          scopes = pending.scopes;
        })
        now
        expires_at
      ≡ ok claims
    → parse_scopes claims.scope ≡ ok pending.scopes
parse_scopes-scope urls request client policy pending chrono random issuer principal now expires_at
      claims accepted minted =
    let a = (validate_authorization_request_iff urls request client policy pending).0 accepted in
    let (filled, words, _) = parse_scopes-IsWord _ pending.scopes a.scoped in
    let g =
      access_token_claims-IsGrant chrono random issuer principal _ now expires_at claims minted in
    rw (g.scoped) (parse_scopes-join pending.scopes filled words)
