-- ===== src/Telemetry/Secrets.antt =====
-- What the spans of authzoo-server/src/telemetry.rs can disclose of a request.
use authzoo.Common.{
  true, false, ◌≡◌, inl, inr, refl, ◌∙◌, Option, none, some, List, Text, text, text_eq, any,
  contains, Bool-cases,
}
use authzoo.Telemetry.{
  Tracing, Request, Response, Span, RequestTracing, is_brace, get, keys, started, route_attributes,
  answered, trace_request,
}

-- The two requests match the same route; their paths are the same, unless it has parameters.
pub record SameRoute {HeaderMap Body : Type 0} (a b : Request HeaderMap Body) : Type 0 where
  pub matched : a.matched_path ≡ b.matched_path
  pub static :
      (route : Text) → a.matched_path ≡ some route → any is_brace route ≡ false → a.path ≡ b.path

route_attributes-same :
    (matched : Option Text) (a b : Text)
    → ((route : Text) → matched ≡ some route → any is_brace route ≡ false → a ≡ b)
    → route_attributes matched a ≡ route_attributes matched b
unfolding route_attributes
route_attributes-same none a b static = refl
route_attributes-same (some route) a b static = elim (Bool-cases (any is_brace route)) [
  | inl dynamic ↦ rw dynamic refl
  | inr fixed ↦ rw (static route refl fixed) refl
]

-- What the propagator reads: the two headers of W3C trace context.
pub record SameTrace (a b : Text → Option Text) : Type 0 where
  pub traceparent : a (text "traceparent") ≡ b (text "traceparent")
  pub tracestate : a (text "tracestate") ≡ b (text "tracestate")

module _ {HeaderMap HeaderValue Parent : Type 0}
    (crates : Tracing HeaderMap HeaderValue Parent) where
  started-same :
      {Body : Type 0} (a b : Request HeaderMap Body)
      → a.method ≡ b.method
      → SameRoute a b
      → crates.extract (get crates a.headers) (keys crates a.headers)
        ≡ crates.extract (get crates b.headers) (keys crates b.headers)
      → started crates a ≡ started crates b
  unfolding started
  started-same a b method route parent =
      rw
        (
          method,
          route_attributes-same a.matched_path a.path b.path route.static,
          route.matched,
          parent,
        )
        refl

  excluded_path-same :
      {Body Content : Type 0} (state : RequestTracing) (a : Request HeaderMap Body)
      (next : Option (Span Parent) → Request HeaderMap Body → Response Content)
      → contains a.path state.excluded_paths ≡ true
      → trace_request crates state a next ≡ (next none a, none)
  unfolding trace_request
  excluded_path-same state a next h = rw h refl

  included_path-same :
      {Body Content : Type 0} (state : RequestTracing) (a : Request HeaderMap Body)
      (next : Option (Span Parent) → Request HeaderMap Body → Response Content)
      → contains a.path state.excluded_paths ≡ false
      → (trace_request crates state a next).1
        ≡ some (answered (started crates a) ((next (some (started crates a)) a).status))
  unfolding trace_request
  included_path-same state a next h = rw h refl

  -- Spans disclose no secrets of a request: two requests leave the same span, or none, if they agree
  -- in the method, the matched route, the headers traceparent and tracestate, whether the path is
  -- excluded, and the status of the response, and in the path where the route has no parameters.
  -- The query, other headers, the bodies and the path parameters have no influence. It relies on the
  -- propagator to depend on no other headers.
  pub trace_request-SameTrace :
      {Body Content : Type 0} (state : RequestTracing) (a b : Request HeaderMap Body)
      (next other_next : Option (Span Parent) → Request HeaderMap Body → Response Content)
      (reads : (get_a get_b : Text → Option Text) (keys_a keys_b : List Text)
        → SameTrace get_a get_b
        → crates.extract get_a keys_a ≡ crates.extract get_b keys_b)
      → a.method ≡ b.method
      → SameRoute a b
      → SameTrace (get crates a.headers) (get crates b.headers)
      → contains a.path state.excluded_paths ≡ contains b.path state.excluded_paths
      → (next (some (started crates a)) a).status ≡ (other_next (some (started crates b)) b).status
      → (trace_request crates state a next).1 ≡ (trace_request crates state b other_next).1
  trace_request-SameTrace state a b next other_next reads method route trace excluded status =
      let span = started-same a b method route (reads _ _ _ _ trace) in
      elim (Bool-cases (contains b.path state.excluded_paths)) [
        | inl out ↦
            rw
              (
                excluded_path-same state a next (excluded ∙ out),
                excluded_path-same state b other_next out,
              )
              refl
        | inr kept ↦
            rw
              (
                included_path-same state a next (excluded ∙ kept),
                included_path-same state b other_next kept,
                status,
                span,
              )
              refl
      ]
