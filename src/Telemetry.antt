-- ===== src/Telemetry.antt =====
-- Tracing of requests, of authzoo-server/src/telemetry.rs: its configuration and the spans it records.
-- Deserialization, URLs, headers and the propagation of traces are third-party: parameters.
-- `excluded_paths` is a list here, where a `HashSet` is asked only whether it contains a path.
pub mod Configuration
pub mod Secrets
pub mod Export
use authzoo.Common.{
  ℕ, Bool, true, false, not, ◌&&◌, ◌||◌, Option, none, some, List, [], ◌∷◌, Text, text, text_beq,
  text_eq, is_empty, any, contains, nat_beq, leb, ltb, trim, starts_with, if◌then◌else◌, ◌++◌,
  Result, ok, err, require, ok_or, map_err, ◌>>=◌, ◌>>◌,
}
use authzoo.Url.{Url, Urls, is_some, is_none}

pub record TracesConfig : Type 0 where
  pub endpoint : Text
  pub service_name : Text
  pub excluded_paths : List Text

pub record RawTracesConfig : Type 0 where
  pub endpoint : Text
  pub service_name : Option Text
  pub excluded_paths : List Text

-- The errors of the closure.
pub data ConfigError : Type 0 where
  malformed_endpoint : ConfigError
  unsupported_endpoint : ConfigError
  empty_service_name : ConfigError
  relative_excluded_path : ConfigError

unfoldable pub is_unsupported : Url → Bool
is_unsupported url =
    not (text_beq url.scheme (text "http") || text_beq url.scheme (text "https"))
    || is_none url.host_str
    || not (is_empty url.username)
    || is_some url.password
    || not (text_beq url.path (text "") || text_beq url.path (text "/"))
    || is_some url.query
    || is_some url.fragment

abbrev pub is_question : ℕ → Bool
is_question c = nat_beq c 63

abbrev pub is_hash : ℕ → Bool
is_hash c = nat_beq c 35

unfoldable pub is_relative : Text → Bool
is_relative path = not (starts_with (text "/") path) || any is_question path || any is_hash path

abbrev pub unwrap_or : Option Text → Text → Text
unwrap_or none default = default
unwrap_or (some name) default = name

module _ (urls : Urls) where
  -- The closure of `deserialize_optional`.
  unfoldable pub validated : Text → RawTracesConfig → Result ConfigError TracesConfig
  validated default_service_name raw = do
    endpoint ← ok_or (urls.parse raw.endpoint) malformed_endpoint
    require (not (is_unsupported endpoint)) unsupported_endpoint
    let service_name = unwrap_or raw.service_name default_service_name
    require (not (is_empty (trim service_name))) empty_service_name
    require (not (any is_relative raw.excluded_paths)) relative_excluded_path
    ok (record {
      endpoint = raw.endpoint;
      service_name = service_name;
      excluded_paths = raw.excluded_paths;
    })

  abbrev pub transpose : Result ConfigError TracesConfig → Result ConfigError (Option TracesConfig)
  transpose result = result >>= λ config. ok (some config)

  abbrev pub deserialize_table :
      Text → Option RawTracesConfig → Result ConfigError (Option TracesConfig)
  deserialize_table default_service_name none = ok none
  deserialize_table default_service_name (some raw) = transpose (validated default_service_name raw)

  -- `deserialize_optional`, from the optional table as serde read it; serde's own error comes first.
  unfoldable pub deserialize_optional :
      {D : Type 0}
      → (ConfigError → D)
      → Result D (Option RawTracesConfig)
      → Text
      → Result D (Option TracesConfig)
  deserialize_optional custom deserialized default_service_name =
      deserialized >>= λ table. map_err custom (deserialize_table default_service_name table)

-- What the code uses of the crates http and opentelemetry_sdk.
pub record Tracing (HeaderMap HeaderValue Parent : Type 0) : Type 0 where
  pub header : HeaderMap → Text → Option HeaderValue
  pub header_names : HeaderMap → List Text
  pub to_str : HeaderValue → Option Text
  -- `TraceContextPropagator::extract`, from the two functions of an `Extractor`.
  pub extract : (Text → Option Text) → List Text → Parent

pub record Request (HeaderMap Body : Type 0) : Type 0 where
  pub method : Text
  pub path : Text
  pub query : Option Text
  pub headers : HeaderMap
  pub matched_path : Option Text
  pub body : Body

pub record Response (Content : Type 0) : Type 0 where
  pub status : ℕ
  pub content : Content

-- The value of a `KeyValue`.
pub data Value : Type 0 where
  string : Text → Value
  i64 : ℕ → Value

pub data Status : Type 0 where
  unset : Status
  error : Text → Status

-- A span of the kind server.
pub record Span (Parent : Type 0) : Type 0 where
  pub name : Text
  pub parent : Parent
  pub attributes : List (Text × Value)
  pub status : Status

pub record RequestTracing : Type 0 where
  pub excluded_paths : List Text

-- The state that `instrument` gives `trace_request`.
abbrev pub instrument : TracesConfig → RequestTracing
instrument config = record { excluded_paths = config.excluded_paths }

abbrev pub is_brace : ℕ → Bool
is_brace c = nat_beq c 123

unfoldable pub span_name : Text → Option Text → Text
span_name method none = method
span_name method (some route) = method ++ text " " ++ route

-- The attributes for the route.
unfoldable pub route_attributes : Option Text → Text → List (Text × Value)
route_attributes none path = []
route_attributes (some route) path =
    (if not (any is_brace route) then (text "url.path", string path) ∷ [] else [])
    ++ (text "http.route", string route) ∷ []

abbrev pub is_server_error : ℕ → Bool
is_server_error status = leb 500 status && ltb status 600

-- What the span gets from the response.
unfoldable pub answered : {Parent : Type 0} → Span Parent → ℕ → Span Parent
answered span status = record {
  name = span.name;
  parent = span.parent;
  attributes = span.attributes ++ (text "http.response.status_code", i64 status) ∷ [];
  status = if is_server_error status then error (text "") else span.status;
}

module _ {HeaderMap HeaderValue Parent : Type 0}
    (crates : Tracing HeaderMap HeaderValue Parent) where
  abbrev pub read_header : Option HeaderValue → Option Text
  read_header none = none
  read_header (some value) = crates.to_str value

  -- `Headers::get`.
  abbrev pub get : HeaderMap → Text → Option Text
  get headers key = read_header (crates.header headers key)

  -- `Headers::keys`.
  abbrev pub keys : HeaderMap → List Text
  keys headers = crates.header_names headers

  -- The span that `trace_request` starts.
  unfoldable pub started : {Body : Type 0} → Request HeaderMap Body → Span Parent
  started request = record {
    name = span_name request.method request.matched_path;
    parent = crates.extract (get request.headers) (keys request.headers);
    attributes =
        (text "http.request.method", string request.method)
        ∷ route_attributes request.matched_path request.path;
    status = unset;
  }

  -- `trace_request`: the response, and the span that has ended. The next handler runs in the context
  -- of the span, if there is one.
  unfoldable pub trace_request :
      {Body Content : Type 0}
      → RequestTracing
      → Request HeaderMap Body
      → (Option (Span Parent) → Request HeaderMap Body → Response Content)
      → Response Content × Option (Span Parent)
  trace_request state request next =
      if contains request.path state.excluded_paths
      then (next none request, none)
      else let span = started request in
        let response = next (some span) request in (response, some (answered span response.status))
