-- ===== src/Adapters/Vtf.antt =====
-- `VtfClient` of src/vfobs/adapters/vtf.py.
use Prim.Native.Char.{code}
use Prim.Native.String.{◌++◌ as str_append}
use vfobs.Prelude.{
  ℕ, String, str_eq, ◌≡◌, ◌↔◌, Bool, true, not, ◌&&◌, Option, none, some, arith, ◌==◌,
  if◌then◌else◌,
}
use vfobs.Prelude.Result.{Result, ok, raise, Exception, value_error, vtf_auth_error}
use vfobs.Adapters.Dto.{VtfPrincipal, WorkgraphMetadata, TaskMetadata}

-- What a GET of the HTTP client comes to: it raises, or there is a response with a status, whose
-- body is JSON or makes `r.json()` raise.
pub data Outcome (Json : Type 0) : Type 0 where
  failed : Outcome Json
  response : ℕ → Option Json → Outcome Json

-- The libraries below the client: httpx, and pydantic's `model_validate`, where None is an exception.
pub record Http : Type 1 where
  pub Json : Type 0
  -- a GET of a URL with the header `Authorization`
  pub http_get : String → String → Outcome Json
  pub is_dict : Json → Bool
  pub validate_principal : Json → Option VtfPrincipal
  pub validate_workgraph : Json → Option WorkgraphMetadata
  pub validate_task : Json → Option TaskMetadata

-- `s.rstrip("/")`
unfoldable pub rstrip_slash : String → String
rstrip_slash String.[] = ""
rstrip_slash (String.◌∷◌ c s) =
    let rest = rstrip_slash s in if str_eq rest "" && code c == b'/' then "" else String.◌∷◌ c rest

module _ (h : Http) where
  -- `VtfClient.__init__`: the base URL that the client keeps.
  unfoldable pub client_base : Option String → Result Exception String
  unfolding rstrip_slash
  client_base none = raise value_error
  client_base (some vtaskforge_url) = ok (rstrip_slash vtaskforge_url)

  -- `_auth`
  unfoldable pub auth_header : String → String
  auth_header token = str_append "Token " token

  principal_of : Option VtfPrincipal → Result Exception VtfPrincipal
  principal_of none = raise vtf_auth_error
  principal_of (some who) = ok who

  parsed : Option h.Json → Result Exception VtfPrincipal
  unfolding principal_of
  parsed none = raise vtf_auth_error
  parsed (some json) = principal_of (h.validate_principal json)

  validated : Outcome h.Json → Result Exception VtfPrincipal
  unfolding parsed
  validated failed = raise vtf_auth_error
  validated (response status body) = if status == 200 then parsed body else raise vtf_auth_error

  -- `validate_token`
  unfoldable pub validate_token : String → String → Result Exception VtfPrincipal
  unfolding validated auth_header
  validate_token base token =
      validated (h.http_get (str_append base "/v2/auth/validate/") (auth_header token))

  json_of : Outcome h.Json → Option h.Json
  json_of failed = none
  json_of (response status body) = if not (status == 200) then none else body

  -- `_get_json`
  unfoldable pub get_json : String → String → String → Option h.Json
  unfolding json_of auth_header
  get_json base path token = json_of (h.http_get (str_append base path) (auth_header token))

  -- `data` is a dict that validates, or there is no metadata.
  metadata_of : {A : Type 0} → (h.Json → Option A) → Option h.Json → Option A
  metadata_of validate none = none
  metadata_of validate (some json) = if not (h.is_dict json) then none else validate json

  unfoldable pub get_workgraph : String → String → String → Option WorkgraphMetadata
  unfolding metadata_of get_json
  get_workgraph base workgraph_id token =
      metadata_of h.validate_workgraph
        (get_json base (str_append "/v2/milestones/" (str_append workgraph_id "/")) token)

  unfoldable pub get_task : String → String → String → Option TaskMetadata
  unfolding metadata_of get_json
  get_task base task_id token =
      metadata_of h.validate_task
        (get_json base (str_append "/v2/tasks/" (str_append task_id "/")) token)

  validated_there :
      (o : Outcome h.Json) (who : VtfPrincipal)
      → validated o ≡ ok who
      → (json : h.Json) × (o ≡ response 200 (some json)) × (h.validate_principal json ≡ some who)
  unfolding validated
  validated_there failed who e = cc
  validated_there (response status none) who e = ground arith
  validated_there (response status (some json)) who e = (json, ground (arith, e), ground (arith, e))

  validated_back :
      (json : h.Json) (who : VtfPrincipal)
      → h.validate_principal json ≡ some who
      → validated (response 200 (some json)) ≡ ok who
  unfolding validated
  validated_back json who e = rw e

  validated_error :
      (o : Outcome h.Json) (e : Exception) → validated o ≡ raise e → e ≡ vtf_auth_error
  unfolding validated
  validated_error failed e q = cc
  validated_error (response status none) e q = ground arith
  validated_error (response status (some json)) e q = ground arith

  pub validate_token-raise :
      (base token : String) (e : Exception)
      → validate_token base token ≡ raise e
      → e ≡ vtf_auth_error
  unfolding validate_token
  validate_token-raise base token =
      validated_error (h.http_get (str_append base "/v2/auth/validate/") (auth_header token))

  -- Validation grants a principal exactly when vtaskforge answers 200 with a JSON body that is one;
  -- everything else, a failing connection included, is `VtfAuthError` and no other exception.
  pub validate_token_lem :
      (base token : String) (who : VtfPrincipal)
      → ((validate_token base token ≡ ok who) ↔ (
          (json : h.Json) × (h.http_get
              (str_append base "/v2/auth/validate/")
              (str_append "Token " token)
            ≡ response 200 (some json))
          × (h.validate_principal json ≡ some who)))
        × ((e : Exception) → validate_token base token ≡ raise e → e ≡ vtf_auth_error)
  unfolding validate_token
  validate_token_lem base token who = (
    (
      validated_there
          (h.http_get (str_append base "/v2/auth/validate/") (str_append "Token " token)) who,
      λ (json, answer, good). rw answer (validated_back json who good),
    ),
    validate_token-raise base token,
  )

  -- Task metadata is what a 200 answer with a JSON object validates to. Anything else, a failing
  -- connection included, gives None: the metadata calls raise nothing.
  pub get_task_lem :
      (base task_id token : String) (m : TaskMetadata)
      → (get_task base task_id token ≡ some m) ↔ (
          (json : h.Json) × (h.http_get
              (str_append base (str_append "/v2/tasks/" (str_append task_id "/")))
              (str_append "Token " token)
            ≡ response 200 (some json))
          × (h.is_dict json ≡ true)
          × (h.validate_task json ≡ some m))
  unfolding get_task
  get_task_lem base task_id token m = (there answer, back)
    where
      answer : Outcome h.Json
      answer =
          h.http_get (str_append base (str_append "/v2/tasks/" (str_append task_id "/")))
            (str_append "Token " token)

      there :
          (o : Outcome h.Json)
          → metadata_of h.validate_task (json_of o) ≡ some m
          → (json : h.Json) × (o ≡ response 200 (some json))
            × (h.is_dict json ≡ true)
            × (h.validate_task json ≡ some m)
      there failed e = cc
      there (response status none) e = ground arith
      there (response status (some json)) e =
          (json, ground (arith, e), ground (arith, e), ground (arith, e))

      back :
          ((json : h.Json) × (answer ≡ response 200 (some json))
            × (h.is_dict json ≡ true)
            × (h.validate_task json ≡ some m))
          → metadata_of h.validate_task (json_of answer) ≡ some m
      back (json, e, d, g) = rw (e, d) g
