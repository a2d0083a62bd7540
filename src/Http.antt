-- ===== src/Http.antt =====
-- The log of requests, of authzoo-server/src/http.rs: the event with the fields of the span it is in.
-- Times are in milliseconds.
use authzoo.Common.{ℕ, ◌-◌, ◌≡◌, refl, Text}
use authzoo.Telemetry.{Request, Response}

pub record Logged : Type 0 where
  pub method : Text
  pub path : Text
  pub status : ℕ
  pub latency_ms : ℕ

-- `request`, where the next handler's run begins and ends at the two times.
unfoldable pub request :
    {HeaderMap Body Content : Type 0}
    → ℕ
    → ℕ
    → Request HeaderMap Body
    → (Request HeaderMap Body → Response Content)
    → Response Content × Logged
request started ended r next =
    let response = next r in
    (
      response,
      record {
        method = r.method;
        path = r.path;
        status = response.status;
        latency_ms = ended - started;
      },
    )

-- The log discloses no query parameters, headers or bodies: of two requests with the same method and
-- path, answered with the same status in the same time, the log is the same. The response is the
-- next handler's.
pub request-discreet :
    {HeaderMap Body Content : Type 0} (a b : Request HeaderMap Body)
    (next other_next : Request HeaderMap Body → Response Content) (started ended : ℕ)
    → a.method ≡ b.method
    → a.path ≡ b.path
    → (next a).status ≡ (other_next b).status
    → ((request started ended a next).0 ≡ next a)
      × ((request started ended a next).1 ≡ (request started ended b other_next).1)
unfolding request
request-discreet a b next other_next started ended method path status =
    (refl, simp (status, method, path) refl)
