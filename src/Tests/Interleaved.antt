-- ===== src/Tests/Interleaved.antt =====
-- Interleaved calls of the read authentication, its calls over the client, and the stub of vtaskforge, at concrete inputs.
use vfobs.Prelude.{◌≡◌, ◌≢◌, ◌⊎◌, refl, String, str_eq, none, some, List, [], ◌∷◌, if◌then◌else◌}
use vfobs.Prelude.Dict
use vfobs.Prelude.Dict.{string_key, nat_key}
use vfobs.Prelude.Result.{ok}
use vfobs.Events.Json.{Json, int, str, bool}
use vfobs.Adapters.Dto.{ResourceId}
use vfobs.Adapters.Vtf.{Outcome, failed, validate_token}
use vfobs.Adapters.Validate.{DtoScalars, DtoLaws}
use vfobs.Adapters.Stub.{
  stub_validate, stub_task, stub_milestone, http_of, ServesStub, IsGranted, IsDenied, stub_lem,
}
use vfobs.Api.ReadAuth as read_auth
use vfobs.Api.ReadAuth.Interleaved.{
  Input, begins, answered, after, begin_verify, end_verify, result_of, answer_for,
  end_verify-begin_verify,
}
use vfobs.Api.ReadAuth.Interleaved.Evidence as Evidence
use vfobs.Api.ReadAuth.Interleaved.Granted.{after-IsGranted}
use vfobs.Tests.Data.{platform}
use vfobs.Api.ReadAuth.Answered.{ClientCall, IsAnswered, Recently, verify-IsAnswered}
use vfobs.Tests.Guarded.{http, runtime, alice, user, call_at}
use vfobs.Tests.Ingested.{scalars, scalar-laws}

-- Two calls ask about one token; the second is answered first, and a third finds its answer.
abbrev history : List (Input runtime)
history =
    begins 3 (some "good") 9
    ∷ answered 2 (ok alice)
    ∷ begins 2 (some "good") 5
    ∷ begins 1 (some "good") 1
    ∷ []

after-IsGranted_example : Evidence.IsGranted runtime history 3 user
unfolding after Dict.get Dict.set
after-IsGranted_example = after-IsGranted runtime history 3 user refl

good_verified :
    result_of runtime (
      end_verify runtime
        (begin_verify runtime (some "good") 0 [])
        (answer_for runtime (call_at 0 (ok alice)) (begin_verify runtime (some "good") 0 []))
        [])
    ≡ some (read_auth.verify runtime (call_at 0 (ok alice)) [])
good_verified = end_verify-begin_verify runtime (call_at 0 (ok alice)) []

abbrev dtos : DtoScalars platform
dtos = record {
  scalars = scalars;
  as_bool = λ j. elim j [ bool b ↦ some b | _ ↦ none ];
  as_id = λ j. elim j [
    | int i ↦ some (ResourceId.number i)
    | str s ↦ some (ResourceId.text s)
    | _ ↦ none
  ];
}

dto-laws : DtoLaws dtos
dto-laws = record { as_bool-bool = λ b. refl; as_id-int = λ i. refl; as_id-str = λ s. refl }

-- The stub for the task and the milestone "3".
abbrev get : String → String → Outcome (Json platform)
get url header =
    if str_eq url "http://vtf/v2/auth/validate/"
    then stub_validate header
    else if str_eq url "http://vtf/v2/tasks/3/"
    then stub_task "3" header
    else if str_eq url "http://vtf/v2/milestones/3/"
    then stub_milestone "3" header
    else failed

abbrev good : String
good = "good"

get-ServesStub : ServesStub dtos "http://vtf" get "good" "3"
get-ServesStub = record { at_validate = refl; at_task = refl; at_milestone = refl }

stub_lem_example :
    (good ≢ "bad" → IsGranted dtos "http://vtf" (http_of dtos "http://vtf" get) "good" "3")
    × (good ≡ "bad" → IsDenied dtos "http://vtf" (http_of dtos "http://vtf" get) "good" "3")
stub_lem_example = stub_lem dtos "http://vtf" scalar-laws dto-laws get "good" "3" get-ServesStub

-- The server knows the token at first, and is down later.
abbrev first_call : ClientCall runtime http "http://vtf"
first_call = record { token = some "good"; now = 0; get = http.http_get }

abbrev second_call : ClientCall runtime http "http://vtf"
second_call = record { token = some "good"; now = 30; get = λ url header. failed }

second_call-IsAnswered :
    (token : String) × (some good ≡ some token)
    × (token ≢ "")
    × (IsAnswered runtime http "http://vtf" second_call token user
        ⊎ Recently runtime http "http://vtf" 30 token user (first_call ∷ []))
unfolding read_auth.cache_after read_auth.verify Dict.get Dict.set validate_token
second_call-IsAnswered =
    verify-IsAnswered runtime http "http://vtf" (first_call ∷ []) second_call user refl
