-- ===== src/Tests/Routes.antt =====
-- The read endpoints behind their authentication, at concrete requests.
use vfobs.Prelude.{◌≡◌, ◌⊎◌, refl, String, none, some, List, [], ◌∷◌}
use vfobs.Prelude.Dict
use vfobs.Prelude.Dict.{string_key, nat_key}
use vfobs.Prelude.Int.{pos}
use vfobs.Prelude.Result.{Exception, ok, raise, http_exception}
use vfobs.Adapters.Vtf.{failed}
use vfobs.Api.Query.{build_event_query, dict_of}
use vfobs.Api.Reads.{EventQuery}
use vfobs.Api.ReadAuth as read_auth
use vfobs.Api.ReadAuth.Answered.{call_of}
use vfobs.Api.Routes.{
  Route, workgraph, task, events_of_task, filtered, prepare, ReadRequest, serve_read, guarded,
}
use vfobs.Api.Routes.Refused.{IsRefused}
use vfobs.Api.Routes.Guarded.{
  auth_now, calls_of, fresh, IsTurnedAway, IsLetIn, serve_read-IsGuarded,
}
use vfobs.Repository.Memory.{Repo}
use vfobs.Tests.Data.{platform, repo, R}
use vfobs.Tests.Guarded.{http, runtime}
use vfobs.Tests.Made.{pydantic}

abbrev base : String
base = "http://vtf"

abbrev Request : Type 0
Request = ReadRequest runtime http base R

-- The server knows the token at first, and is down later.
abbrev first_request : Request
first_request = record {
  route = events_of_task "t1" none (pos 100);
  call = record { token = some "good"; now = 0; get = http.http_get };
}

abbrev second_request : Request
second_request = record {
  route = task "t1";
  call = record { token = some "good"; now = 30; get = λ url header. failed };
}

abbrev older : List (Repo platform × Request)
older = (repo, first_request) ∷ []

serve_read-IsGuarded_example :
    ((x : Exception) × (prepare pydantic second_request.route ≡ raise x)
      × (serve_read runtime http base R pydantic
            (some base)
            repo
            second_request
            (auth_now runtime http base R pydantic (some base) older)
          ≡ (raise x, auth_now runtime http base R pydantic (some base) older)))
    ⊎ ((x : Exception) × IsRefused runtime (call_of runtime http base second_request.call) x
        × IsTurnedAway runtime http base R pydantic
            (some base)
            repo
            second_request
            (auth_now runtime http base R pydantic (some base) older)
            x)
    ⊎ ((route : Route EventQuery) × (prepare pydantic second_request.route ≡ ok route)
        × IsLetIn runtime http base R pydantic
            (some base)
            repo
            second_request
            (auth_now runtime http base R pydantic (some base) older)
            (calls_of runtime http base R pydantic (some base) older)
            route)
serve_read-IsGuarded_example =
    serve_read-IsGuarded runtime http base R pydantic (some base) older repo second_request

-- A query with an unknown parameter is refused by 422 also without a token.
abbrev bad_request : Request
bad_request = record {
  route = filtered (("page", "2") ∷ []);
  call = record { token = none; now = 0; get = http.http_get };
}

bad_request_refused :
    (serve_read runtime http base R pydantic
      (some base)
      repo
      bad_request
      (fresh runtime http base R pydantic (some base))).0
    ≡ raise (http_exception 422 "invalid")
unfolding serve_read prepare build_event_query dict_of Dict.set Dict.get
bad_request_refused = refl

-- Without a token any other request is refused by 401.
no_token_refused :
    (serve_read runtime http base R pydantic
      (some base)
      repo
      (record bad_request { route = workgraph "w1" })
      (fresh runtime http base R pydantic (some base))).0
    ≡ raise (http_exception 401 "Missing bearer token")
unfolding serve_read prepare guarded read_auth.get_read_principal read_auth.verify
no_token_refused = refl
