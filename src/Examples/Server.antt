-- ===== src/Examples/Server.antt =====
-- Shutdown, files and traces of authzoo-server.
use authzoo.Shutdown.Signals.{Signals, SignalPoll, wait, NamesFirst, wait_iff}
use authzoo.Telemetry.Export.{Otlp, shutdown, flush_failed, could_not_flush}
use authzoo.Common.{
  ℕ, ◌+◌, ◌≡◌, ◌↔◌, ◌≤◌, refl, arith, Bool, true, false, Option, none, some, List, [], ◌∷◌, Text,
  text, leb, leb→le, text_beq, any, Result, ok, if◌then◌else◌,
}
use authzoo.Url.{Url, Urls, domain}
use authzoo.Shutdown.{Poll, drain, start, grace_period}
use authzoo.Shutdown.Liveness.{IsFinished, drain-IsFinished}
use authzoo.Shutdown.Outcomes.{Explained, IsPunctual, drain-Explained}
use authzoo.Tls.{path, file_paths}
use authzoo.Tls.Located.{Resolved, file_paths-Resolved}
use authzoo.Telemetry.{
  Tracing, Request, Response, RawTracesConfig, TracesConfig, ConfigError, deserialize_optional,
  trace_request, is_brace,
}
use authzoo.Telemetry.Configuration.{Configured, deserialize_optional_iff}
use authzoo.Telemetry.Secrets.{trace_request-SameTrace}

-- A poll with a pending server; sleeps are exact.
abbrev poll : ℕ → Bool → Poll Text
poll now signal = record {
  now = now;
  server_first = true;
  server = none;
  signal = signal;
  draining_server = none;
  is_over = λ deadline. leb deadline now;
}

is_over-leb : (deadline now : ℕ) → deadline ≤ now → leb deadline now ≡ true
is_over-leb deadline now le = ground arith

poll-IsPunctual : (now : ℕ) (signal : Bool) → IsPunctual (poll now signal)
poll-IsPunctual now signal deadline = leb→le deadline now

abbrev calls : ℕ → ℕ
calls n = n + 1

drain-IsFinished_example : IsFinished (
    (drain calls grace_period
      (poll 5 false ∷ poll 10 true ∷ poll 20 false ∷ poll 25010 false ∷ [])
      (start 0)).phase)
drain-IsFinished_example =
    drain-IsFinished calls grace_period 0 0 (poll 5 false ∷ []) (poll 20 false ∷ []) []
      (poll 10 true) (poll 25010 false)
      (λ deadline le. is_over-leb deadline 25010 (omega (arith, le))) refl (omega arith, tt)
      (omega arith)

drain-Explained_example :
    Explained calls grace_period 0
      (poll 10 true ∷ poll 25010 false ∷ [])
      (drain calls grace_period (poll 10 true ∷ poll 25010 false ∷ []) (start 0))
drain-Explained_example =
    drain-Explained calls grace_period 0 (poll 10 true ∷ poll 25010 false ∷ [])
      (poll-IsPunctual 10 true, (poll-IsPunctual 25010 false, tt))

file_paths-Resolved_example :
    Resolved
      (record { has_root = true; components = text "etc" ∷ [] })
      (some (text "cert.pem"))
      none
      (file_paths
        (some (text "cert.pem"))
        none
        (record { has_root = true; components = text "etc" ∷ text "app.toml" ∷ [] }))
file_paths-Resolved_example =
    file_paths-Resolved (some (text "cert.pem")) none
      (record { has_root = true; components = text "etc" ∷ text "app.toml" ∷ [] }) (text "etc" ∷ [])
      (text "app.toml") refl

abbrev tempo : Url
tempo = record {
  scheme = text "http";
  username = [];
  password = none;
  host = some (domain (text "tempo"));
  host_str = some (text "tempo");
  port_or_known_default = some 4317;
  path = text "/";
  query = none;
  fragment = none;
}

abbrev urls : Urls
urls = record {
  parse = λ t. if text_beq t (text "http://tempo:4317") then some tempo else none;
  parse_error = λ t. text "relative URL without a base";
  to_string = λ u. u.path;
  append_pairs = λ u pairs. u;
}

abbrev table : RawTracesConfig
table = record {
  endpoint = text "http://tempo:4317";
  service_name = none;
  excluded_paths = text "/healthz" ∷ [];
}

abbrev config : TracesConfig
config = record {
  endpoint = text "http://tempo:4317";
  service_name = text "id";
  excluded_paths = text "/healthz" ∷ [];
}

abbrev message : ConfigError → Text
message e = text "invalid"

deserialize_optional_iff_example :
    (deserialize_optional urls message (ok (some table)) (text "id") ≡ ok (some config)) ↔ (
      (read : Option RawTracesConfig) × (◌≡◌ {A = Result Text _} (ok (some table)) (ok read))
      × Configured urls (text "id") read (some config))
deserialize_optional_iff_example =
    deserialize_optional_iff urls (text "id") message (ok (some table)) (some config)

-- A header map by names.
abbrev Headers : Type 0
Headers = List (Text × Text)

abbrev header : Headers → Text → Option Text
header [] key = none
header ((name, value) ∷ headers) key = if text_beq name key then some value else header headers key

abbrev names : Headers → List Text
names [] = []
names ((name, value) ∷ headers) = name ∷ names headers

abbrev crates : Tracing Headers Text (Option Text)
crates = record {
  header = header;
  header_names = names;
  to_str = λ value. some value;
  extract = λ get keys. get (text "traceparent");
}

abbrev request : Text → Headers → Request Headers Text
request path headers = record {
  method = text "GET";
  path = path;
  query = none;
  headers = headers;
  matched_path = some (text "/accept/{token}");
  body = path;
}

abbrev first : Request Headers Text
first =
    request (text "/accept/1") ((text "cookie", text "s") ∷ (text "traceparent", text "00") ∷ [])

abbrev other : Request Headers Text
other = request (text "/accept/2") ((text "traceparent", text "00") ∷ [])

same_if_static :
    (route : Text)
    → first.matched_path ≡ some route
    → any is_brace route ≡ false
    → first.path ≡ other.path
same_if_static route matched fixed =
    let same : text "/accept/{token}" ≡ route = cc in
    let dynamic : any is_brace route ≡ true = rw (← same) refl in cc (dynamic, fixed)

abbrev answer : {P : Type 0} → Option P → Request Headers Text → Response Text
answer span request = record { status = 200; content = request.body }

trace_request-SameTrace_example :
    (trace_request crates (record { excluded_paths = text "/healthz" ∷ [] }) first answer).1
    ≡ (trace_request crates (record { excluded_paths = text "/healthz" ∷ [] }) other answer).1
unfolding text_beq
trace_request-SameTrace_example =
    trace_request-SameTrace crates (record { excluded_paths = text "/healthz" ∷ [] }) first other
      answer answer (λ get_a get_b keys_a keys_b same. same.traceparent) refl
      (record { matched = refl; static = same_if_static })
      (record { traceparent = refl; tracestate = refl }) refl refl

abbrev signals : Signals ℕ
signals = record { terminate = 15; interrupt = 2 }

-- SIGINT comes alone, after a poll in which nothing has come.
abbrev signal_polls : List (SignalPoll ℕ)
signal_polls =
    record { interrupt_first = true; has_come = λ s. false }
    ∷ record { interrupt_first = false; has_come = λ s. leb s 2 }
    ∷ []

wait_iff_example :
    (wait signals signal_polls ≡ some (text "SIGINT"))
    ↔ NamesFirst signals (text "SIGINT") signal_polls
wait_iff_example = wait_iff signals (text "SIGINT") signal_polls

abbrev otlp : Otlp Text Text ℕ
otlp = record {
  build_exporter = λ settings. ok settings.endpoint;
  build_provider = λ settings. settings.service_name;
  shutdown_with_timeout = λ tracer_provider seconds. flush_failed seconds;
}

-- `shutdown` warns of a failed flush.
warned : shutdown otlp (text "app") ≡ some (could_not_flush 3)
unfolding shutdown
warned = refl
