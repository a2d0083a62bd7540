-- ===== src/Telemetry/Configuration.antt =====
-- Which trace tables authzoo-server/src/telemetry.rs takes.
use authzoo.Common.{
  ℕ, Bool, true, false, not, ◌≡◌, ◌≢◌, ◌↔◌, ◌⊎◌, refl, ap, Option, none, some, [], ◌++◌, Text, text,
  is_empty_iff, filled_iff, one_of_iff, starts_with_iff, any_avoids, any_none, any, At, trim,
  nat_beq, Result, ok, err, panic, require, ok_or, map_err, >>=-eq-ok, ok_or-eq, require-eq, ok-inj,
  arith,
}
use authzoo.Url.{Url, Urls, is_some_iff, is_none_iff}
use authzoo.Telemetry.{
  TracesConfig, RawTracesConfig, ConfigError, is_unsupported, is_relative, is_question, is_hash,
  unwrap_or, validated, deserialize_table, deserialize_optional,
}

-- An HTTP or HTTPS origin.
pub record IsOrigin (url : Url) : Type 0 where
  pub scheme : (url.scheme ≡ text "http") ⊎ (url.scheme ≡ text "https")
  pub host : (name : Text) × (url.host_str ≡ some name)
  pub username : url.username ≡ []
  pub password : url.password ≡ none
  pub path : (url.path ≡ []) ⊎ (url.path ≡ text "/")
  pub query : url.query ≡ none
  pub fragment : url.fragment ≡ none

-- An absolute URL path without query or fragment.
pub record IsAbsolute (path : Text) : Type 0 where
  pub rooted : (rest : Text) × (path ≡ text "/" ++ rest)
  pub no_query : (c : ℕ) → At c path → c ≢ 63
  pub no_fragment : (c : ℕ) → At c path → c ≢ 35

is_unsupported-IsOrigin : (url : Url) → is_unsupported url ≡ false → IsOrigin url
unfolding is_unsupported
is_unsupported-IsOrigin url h = record {
  scheme = (one_of_iff url.scheme (text "http") (text "https")).0 (ground arith);
  host = (is_some_iff url.host_str).0 (ground arith);
  username = (is_empty_iff url.username).0 (ground arith);
  password = (is_none_iff url.password).0 (ground arith);
  path = (one_of_iff url.path (text "") (text "/")).0 (ground arith);
  query = (is_none_iff url.query).0 (ground arith);
  fragment = (is_none_iff url.fragment).0 (ground arith);
}

IsOrigin-is_unsupported : (url : Url) → IsOrigin url → is_unsupported url ≡ false
unfolding is_unsupported
IsOrigin-is_unsupported url o =
    let (name, host) = o.host in
    rw
      (
        (one_of_iff url.scheme (text "http") (text "https")).1 o.scheme,
        host,
        o.username,
        o.password,
        (one_of_iff url.path (text "") (text "/")).1 o.path,
        o.query,
        o.fragment,
      )
      refl

avoids_iff : (n c : ℕ) → (nat_beq c n ≡ false) ↔ (c ≢ n)
avoids_iff n c = ground arith

is_relative-IsAbsolute : (path : Text) → (is_relative path ≡ false) ↔ IsAbsolute path
unfolding is_relative
is_relative-IsAbsolute path = (
  λ h. record {
    rooted = (starts_with_iff (text "/") path).0 (ground arith);
    no_query = λ c at. (avoids_iff 63 c).0 (any_avoids is_question path (ground arith) c at);
    no_fragment = λ c at. (avoids_iff 35 c).0 (any_avoids is_hash path (ground arith) c at);
  },
  λ a.
      rw
        (
          (starts_with_iff (text "/") path).1 a.rooted,
          any_none is_question path (λ c at. (avoids_iff 63 c).1 (a.no_query c at)),
          any_none is_hash path (λ c at. (avoids_iff 35 c).1 (a.no_fragment c at)),
        )
        refl,
)

-- A table is taken as a configuration.
pub record IsTaken (urls : Urls) (default : Text) (raw : RawTracesConfig) (config : TracesConfig)
    : Type 0 where
  pub origin : (url : Url) × (urls.parse raw.endpoint ≡ some url) × IsOrigin url
  pub endpoint : config.endpoint ≡ raw.endpoint
  pub service_name : config.service_name ≡ unwrap_or raw.service_name default
  pub named : trim config.service_name ≢ []
  pub excluded_paths : config.excluded_paths ≡ raw.excluded_paths
  pub absolute : (path : Text) → At path config.excluded_paths → IsAbsolute path

not-eq-true : (b : Bool) → not b ≡ true → b ≡ false
not-eq-true b h = ground arith

module _ (urls : Urls) (default : Text) (raw : RawTracesConfig) (config : TracesConfig) where
  validated-IsTaken : validated urls default raw ≡ ok config → IsTaken urls default raw config
  unfolding validated
  validated-IsTaken h =
      let (url, parsed, h) = >>=-eq-ok (ok_or (urls.parse raw.endpoint) _) _ h in
      let (_, supported, h) = >>=-eq-ok (require _ ConfigError.unsupported_endpoint) _ h in
      let (_, named, h) = >>=-eq-ok (require _ ConfigError.empty_service_name) _ h in
      let (_, absolute, h) = >>=-eq-ok (require _ ConfigError.relative_excluded_path) _ h in
      let name = not-eq-true _ (require-eq _ _ named) in
      let relative = not-eq-true _ (require-eq _ _ absolute) in
      let made = ok-inj h in
      rw (← made) (record {
        origin = (
          url,
          ok_or-eq _ _ parsed,
          is_unsupported-IsOrigin url (not-eq-true _ (require-eq _ _ supported)),
        );
        endpoint = refl;
        service_name = refl;
        named = (filled_iff (trim (unwrap_or raw.service_name default))).0 name;
        excluded_paths = refl;
        absolute = λ path at.
            (is_relative-IsAbsolute path).0
              (any_avoids is_relative raw.excluded_paths relative path at);
      })

  IsTaken-validated : IsTaken urls default raw config → validated urls default raw ≡ ok config
  unfolding validated
  IsTaken-validated t =
      let (url, parsed, origin) = t.origin in
      let relative : any is_relative raw.excluded_paths ≡ false = rw (← t.excluded_paths) (
        any_none is_relative config.excluded_paths
          (λ path at. (is_relative-IsAbsolute path).1 (t.absolute path at))) in
      rw
        (
          parsed,
          IsOrigin-is_unsupported url origin,
          (filled_iff (trim (unwrap_or raw.service_name default))).1
              (rw (← t.service_name) t.named),
          relative,
          ← t.endpoint,
          ← t.service_name,
          ← t.excluded_paths,
        )
        refl

-- What comes of the optional table that was read.
pub data Configured (urls : Urls) (default : Text)
    : Option RawTracesConfig → Option TracesConfig → Type 0 where
  absent : Configured urls default none none
  present :
      {raw : RawTracesConfig} {config : TracesConfig}
      → IsTaken urls default raw config
      → Configured urls default (some raw) (some config)

module _ (urls : Urls) (default : Text) where
  table-Configured :
      (table : Option RawTracesConfig) (result : Option TracesConfig)
      → deserialize_table urls default table ≡ ok result
      → Configured urls default table result
  table-Configured none result h = rw (← ok-inj h) absent
  table-Configured (some raw) result h =
      let (config, took, h) = >>=-eq-ok (validated urls default raw) _ h in
      rw (← ok-inj h) (present (validated-IsTaken urls default raw config took))

  Configured-table :
      (table : Option RawTracesConfig) (result : Option TracesConfig)
      → Configured urls default table result
      → deserialize_table urls default table ≡ ok result
  Configured-table table result absent = refl
  Configured-table table result (present {raw} {config} taken) =
      rw (IsTaken-validated urls default raw config taken) refl

  map_err-ok :
      {D : Type 0} (custom : ConfigError → D) (r : Result ConfigError (Option TracesConfig))
      (result : Option TracesConfig)
      → map_err custom r ≡ ok result
      → r ≡ ok result
  map_err-ok custom (ok a) result h = ap ok (ok-inj h)
  map_err-ok custom (err e) result h = cc
  map_err-ok custom panic result h = cc

  -- `deserialize_optional` gives a configuration, or none, exactly when serde read an optional table
  -- and there was none, or its endpoint is the URL of an HTTP(S) origin without credentials, query or
  -- fragment, the service name, the given one or else the default, is not blank, and every excluded
  -- path is absolute without query or fragment; the configuration has the table's values.
  pub deserialize_optional_iff :
      {D : Type 0} (custom : ConfigError → D) (deserialized : Result D (Option RawTracesConfig))
      (result : Option TracesConfig)
      → (deserialize_optional urls custom deserialized default ≡ ok result) ↔ (
          (table : Option RawTracesConfig) × (deserialized ≡ ok table)
          × Configured urls default table result)
  unfolding deserialize_optional
  deserialize_optional_iff custom deserialized result = (
    λ h.
        let (table, read, h) = >>=-eq-ok deserialized _ h in
        (table, read, table-Configured table result (map_err-ok custom _ result h)),
    λ (table, read, configured). rw (read, Configured-table table result configured) refl,
  )
