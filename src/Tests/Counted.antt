-- ===== src/Tests/Counted.antt =====
-- The middleware, alone and around the ingest endpoint, at concrete inputs.
use vfobs.Prelude.{
  ℕ, ◌+◌, ◌≡◌, refl, String, Bool, none, some, List, [], ◌∷◌, length, select, if◌then◌else◌, arith,
}
use vfobs.Prelude.Dict.{string_key, nat_key}
use vfobs.Prelude.Int.{pos}
use vfobs.Prelude.Result.{Result, ok, raise, Exception, http_exception, type_error}
use vfobs.Events.Json.{event_json}
use vfobs.Middleware.{
  Labels, same_labels, same_route, Metrics, MetricsLaws, Telemetry, Exchange, dispatch_all,
}
use vfobs.Middleware.Counted.{IsCounted, dispatch_all-IsCounted}
use vfobs.Middleware.Ingested.{
  Handlers, HandlerLaws, Post, serve_posts, Balance, serve_posts-Balance,
}
use vfobs.Tests.Data.{platform, repo, repo-IsWf, claim, R, contract}
use vfobs.Tests.Guarded.{hmac, hmac-laws, secret}
use vfobs.Tests.Made.{made-laws}
use vfobs.Tests.Ingested.{scalars, secret-ascii}

-- A registry that is the list of what was counted and observed.
abbrev Registry : Type 0
Registry = List Labels × List (String × String)

abbrev metrics : Metrics
metrics = record {
  Registry = Registry;
  Seconds = ℕ;
  inc = λ a r. (a ∷ r.0, r.1);
  observe = λ m p d r. (r.0, (m, p) ∷ r.1);
  counted = λ b r. length (select (λ a. same_labels a b) r.0);
  observed = λ m p r. length (select (λ x. same_route x.0 x.1 m p) r.1);
  elapsed = λ later before. later;
  millis = λ d. pos d;
}

length-select-cons :
    {A : Type 0} (p : A → Bool) (x : A) (xs : List A)
    → length (select p (x ∷ xs)) ≡ (if p x then 1 else 0) + length (select p xs)
length-select-cons p x xs = ground arith

metrics-laws : MetricsLaws metrics
metrics-laws = record {
  counted-inc = λ a b r. length-select-cons (λ a. same_labels a b) a r.0;
  counted-observe = λ m p d b r. refl;
  observed-inc = λ a m p r. refl;
  observed-observe = λ m p m' p' d r. length-select-cons (λ x. same_route x.0 x.1 m' p') (m, p) r.1;
}

abbrev quiet : Telemetry metrics
quiet = record { registry = ([], []); lines = []; request_id = "-" }

abbrev exchanges : List (Exchange metrics)
exchanges =
    record { method = "GET"; path = "/healthz"; rid = "r1"; before = 1; later = 2; answer = ok 200 }
    ∷ record {
      method = "POST";
      path = "/events";
      rid = "r2";
      before = 3;
      later = 4;
      answer = raise type_error;
    }
    ∷ []

dispatch_all-IsCounted_example :
    IsCounted metrics exchanges quiet (dispatch_all metrics exchanges quiet)
dispatch_all-IsCounted_example = dispatch_all-IsCounted metrics metrics-laws exchanges quiet

-- Status codes as FastAPI makes them.
abbrev handled : Exception → Result Exception ℕ
handled (http_exception status detail) = ok status
handled Exception.validation_error = ok 422
handled e = raise e

abbrev handlers : Handlers
handlers = record { handled = handled }

handler-laws : HandlerLaws handlers
handler-laws = record { http = λ status detail. refl; invalid = refl; other = refl }

abbrev posts : List (Post platform metrics)
posts =
    record { creds = some secret; body = event_json claim; rid = "r3"; before = 5; later = 6 }
    ∷ record { creds = none; body = event_json claim; rid = "r4"; before = 7; later = 8 }
    ∷ []

serve_posts-Balance_example :
    Balance contract hmac hmac-laws scalars made-laws secret secret-ascii metrics metrics-laws
      handlers handler-laws
      (repo, quiet)
      (serve_posts R hmac scalars secret metrics handlers posts (repo, quiet))
serve_posts-Balance_example =
    serve_posts-Balance contract hmac hmac-laws scalars made-laws secret secret-ascii metrics
      metrics-laws handlers handler-laws posts repo quiet repo-IsWf
