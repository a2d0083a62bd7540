-- ===== src/Threads/Sequential.antt =====
-- The threads of authzoo/src/validator.rs, each alone, beside the calls as Validator.antt has them.
use authzoo.Common.{
  ◌≡◌, refl, ap, ◌∙◌, Bool, true, false, Option, none, some, [], ◌∷◌, Text, Result, ok, err, panic,
  if◌then◌else◌,
}
use authzoo.Common.Maps.Tree.{BTreeMap}
use authzoo.Jwt.{Algorithm, Json, Jwt, Jwk, ValidatedClaims}
use authzoo.Config.{RoleConfig, AuthzooError, allows_algorithm}
use authzoo.KeyCache.{JwksKeyCacheKey}
use authzoo.Keys
use authzoo.World
use authzoo.World.{Environment, Client, State, M, bind, pure, fail}
use authzoo.Discovery
use authzoo.Discovery.{is_kubernetes_service_issuer, default_client}
use authzoo.Validator
use authzoo.Validator.{TokenValidator}
use authzoo.Tasks.{done, step, ◌>>=◌, atomic, alone}
use authzoo.Threads.{
  Thread, configure_in_cluster_client, configure_client, discovery_client, fetch_key, key_or_fetch,
  discovery_decoding_key, key_or_discover, named_if_ok, validate_allowed, validate_token_for_role,
  validate_roles,
}

-- The thread, alone, does what the computation does.
abbrev pub Runs : {A : Type 0} → Thread A → M A → Type 0
Runs t m = (s : State) → alone t s ≡ m s

Runs-atomic : {A : Type 0} (m : M A) → Runs (atomic m) m
unfolding atomic alone
Runs-atomic m s = refl

Runs-done : {A : Type 0} (r : Result AuthzooError A) → Runs (done r) (λ s. (r, s))
unfolding alone
Runs-done r s = refl

alone->>= :
    {A B : Type 0} (t : Thread A) (f : A → Thread B)
    → Runs (t >>= f) (λ s. bind (alone t s) (λ a. alone (f a)))
unfolding ◌>>=◌ alone
alone->>= (done (ok a)) f s = refl
alone->>= (done (err e)) f s = refl
alone->>= (done panic) f s = refl
alone->>= (step write rest) f s = alone->>= (rest s) f (write s)

bind_cong :
    {A B : Type 0} (r : Result AuthzooError A × State) (f g : A → M B)
    → ((a : A) (s : State) → f a s ≡ g a s)
    → bind r f ≡ bind r g
bind_cong (ok a, s) f g h = h a s
bind_cong (err e, s) f g h = refl
bind_cong (panic, s) f g h = refl

Runs->>= :
    {A B : Type 0} (t : Thread A) (m : M A) (f : A → Thread B) (g : A → M B)
    → Runs t m
    → ((a : A) → Runs (f a) (g a))
    → Runs (t >>= f) (World.◌>>=◌ m g)
unfolding World.◌>>=◌
Runs->>= t m f g h k s =
    alone->>= t f s ∙ (ap (λ r. bind r (λ a. alone (f a))) (h s) ∙ bind_cong (m s) _ _ k)

Runs-if :
    {A : Type 0} (b : Bool) (t u : Thread A) (m n : M A)
    → Runs t m
    → Runs u n
    → Runs (if b then t else u) (if b then m else n)
Runs-if true t u m n h k = h
Runs-if false t u m n h k = k

module _ (env : Environment) where
  configure_client-Runs :
      (role : RoleConfig) → Runs (configure_client env role) (Discovery.configure_client env role)
  unfolding configure_client configure_in_cluster_client Discovery.configure_client
      Discovery.configure_in_cluster_client
  configure_client-Runs role =
      Runs-if (is_kubernetes_service_issuer role.issuer) _ _ _ _
        (Runs->>= _ _ _ _ (Runs-atomic _) λ ca.
          Runs->>= _ _ _ _ (Runs-atomic _)
            λ trusting. Runs->>= _ _ _ _ (Runs-atomic _) λ token. Runs-atomic _)
        (Runs-done (ok default_client))

  discovery_client-Runs :
      (role : RoleConfig) → Runs (discovery_client env role) (Discovery.discovery_client env role)
  unfolding discovery_client Discovery.discovery_client
  discovery_client-Runs role =
      Runs->>= _ _ _ _ (configure_client-Runs role)
        λ client. Runs-if (env.can_build client) _ _ _ _ (Runs-done _) (Runs-done _)

  module _ {V K : Type 0} (jwt : Jwt V K) where
    key_or_fetch-Runs :
        (found : Option Jwk) (client : Client) (uri : Text) (kid : Option Text) (a : Algorithm)
        (key : JwksKeyCacheKey)
        → Runs
            (key_or_fetch env jwt found client uri kid a key)
            (Discovery.key_or_fetch env jwt found client uri kid a key)
    unfolding key_or_fetch fetch_key Discovery.key_or_fetch Discovery.fetch_key
    key_or_fetch-Runs (some jwk) client uri kid a key = Runs-atomic _
    key_or_fetch-Runs none client uri kid a key = Runs->>= _ _ _ _ (Runs-atomic _) λ answer.
        Runs->>= _ _ _ _ (Runs-atomic _) λ jwks.
          Runs->>= _ _ _ _ (Runs-atomic _)
            λ jwk. Runs->>= _ _ _ _ (Runs-atomic _) λ _. Runs-atomic _

    pub discovery_decoding_key-Runs :
        (role : RoleConfig) (token : Text) (a : Algorithm)
        → Runs
            (discovery_decoding_key env jwt role token a)
            (Discovery.discovery_decoding_key env jwt role token a)
    unfolding discovery_decoding_key Discovery.discovery_decoding_key
    discovery_decoding_key-Runs role token a = Runs->>= _ _ _ _ (Runs-atomic _) λ header.
        Runs->>= _ _ _ _ (discovery_client-Runs role) λ client.
          Runs->>= _ _ _ _ (Runs-atomic _) λ answer. Runs->>= _ _ _ _ (Runs-atomic _) λ uri.
            Runs->>= _ _ _ _ (Runs-atomic _)
              λ cached. key_or_fetch-Runs cached client uri header.kid a _

    key_or_discover-Runs :
        (configured : Option Text) (role : RoleConfig) (token : Text) (a : Algorithm)
        → Runs
            (key_or_discover env jwt configured role token a)
            (Keys.key_or_discover jwt env configured role token a)
    unfolding key_or_discover Keys.key_or_discover
    key_or_discover-Runs (some key) role token a = Runs-atomic _
    key_or_discover-Runs none role token a = discovery_decoding_key-Runs role token a

module _ {V K : Type 0} (json : Json V) (jwt : Jwt V K) (env : Environment) where
  pub validate_token_for_role-Runs :
      (role : RoleConfig) (token : Text)
      → Runs
          (validate_token_for_role json jwt env role token)
          (Validator.validate_token_for_role json jwt env role token)
  unfolding validate_token_for_role validate_allowed Validator.validate_token_for_role
      Validator.validate_allowed Keys.resolving_decoding_key
  validate_token_for_role-Runs role token = Runs->>= _ _ _ _ (Runs-atomic _) λ header.
      Runs-if (allows_algorithm role header.alg) _ _ _ _
        (Runs->>= _ _ _ _ (key_or_discover-Runs env jwt role.validation_key role token header.alg)
          λ key. Runs->>= _ _ _ _ (Runs-atomic _) λ decoded.
            Runs->>= _ _ _ _ (Runs-atomic _)
              λ claims. Runs->>= _ _ _ _ (Runs-atomic _) λ _. Runs-done _)
        (Runs-done _)

  named_if_ok-Runs :
      (name : Text) (t : Thread (ValidatedClaims V)) (s : State)
      → alone (named_if_ok name t) s ≡ Validator.named_if_ok json jwt env name (alone t s)
  unfolding named_if_ok Validator.named_if_ok alone
  named_if_ok-Runs name (done (ok c)) s = refl
  named_if_ok-Runs name (done (err e)) s = refl
  named_if_ok-Runs name (done panic) s = refl
  named_if_ok-Runs name (step write rest) s = named_if_ok-Runs name (rest s) (write s)

  pub validate_roles-Runs :
      (roles : BTreeMap RoleConfig) (token : Text)
      → Runs
          (validate_roles json jwt env roles token)
          (Validator.validate_roles json jwt env roles token)
  unfolding validate_roles Validator.validate_roles
  validate_roles-Runs [] token = Runs-done _
  validate_roles-Runs ((name, role) ∷ roles) token =
      Runs->>= _ _ _ _
        (λ s.
          named_if_ok-Runs name (validate_token_for_role json jwt env role token) s
          ∙ ap (Validator.named_if_ok json jwt env name)
              (validate_token_for_role-Runs role token s))
        λ found. Runs->>= _ _ _ _ (validate_roles-Runs roles token) λ names. Runs-done _
