-- ===== src/Tests/Guarded.antt =====
-- The adapter of vtaskforge and the two authentication strategies at concrete inputs.
use vfobs.Prelude.{
  ℕ, ◌+◌, ◌≡◌, ◌≢◌, ◌↔◌, ◌⊎◌, refl, true, false, String, str_eq, Option, none, some, [], ◌∷◌, ltb,
  if◌then◌else◌, ◌&&◌,
}
use vfobs.Prelude.Dict
use vfobs.Prelude.Int.{pos}
use vfobs.Prelude.Result.{Result, ok, raise, Exception, vtf_auth_error, type_error}
use vfobs.Adapters.Dto.{VtfPrincipal, TaskMetadata, number}
use vfobs.Adapters.Vtf.{Http, response, validate_token, validate_token_lem, get_task, get_task_lem}
use vfobs.Api.Auth.{Hmac, HmacLaws, is_ascii, verify, verify_lem, missing_token, invalid_token}
use vfobs.Api.ReadAuth.{Runtime, Call, Principal, cache_after}
use vfobs.Api.ReadAuth as read_auth
use vfobs.Api.ReadAuth.Vouched.{Vouched, Earlier, verify-Vouched}

abbrev pub alice : VtfPrincipal
alice = record {
  user_id = number (pos 7);
  username = some "alice";
  user_type = none;
  is_staff = false;
}

abbrev chore : TaskMetadata
chore = record {
  id = number (pos 3);
  title = some "chore";
  status = some "doing";
  description = none;
}

-- A server that knows one token; its bodies are texts.
abbrev pub http : Http
http = record {
  Json = String;
  http_get = λ url header.
      if str_eq header "Token good" then response 200 (some "{}") else response 401 none;
  is_dict = λ json. str_eq json "{}";
  validate_principal = λ json. some alice;
  validate_workgraph = λ json. none;
  validate_task = λ json. some chore;
}

validate_token_lem_example :
    ((validate_token http "http://vtf" "good" ≡ ok alice) ↔ (
      (json : String) × (response 200 (some "{}") ≡ response 200 (some json))
      × (some alice ≡ some alice)))
    × ((e : Exception) → validate_token http "http://vtf" "good" ≡ raise e → e ≡ vtf_auth_error)
validate_token_lem_example = validate_token_lem http "http://vtf" "good" alice

get_task_lem_example : (get_task http "http://vtf" "3" "good" ≡ some chore) ↔ (
    (json : String) × (response 200 (some "{}") ≡ response 200 (some json))
    × (str_eq json "{}" ≡ true)
    × (some chore ≡ some chore))
get_task_lem_example = get_task_lem http "http://vtf" "3" "good" chore

abbrev pub hmac : Hmac
hmac = record {
  compare_digest = λ a b. if is_ascii a && is_ascii b then ok (str_eq a b) else raise type_error;
}

pub hmac-laws : HmacLaws hmac
hmac-laws = record { compares = λ a b e f. rw (e, f) refl; refuses = λ a b e. rw e refl }

abbrev pub secret : String
secret = "secret"

abbrev sent : Option String
sent = some secret

verify_lem_example :
    ((verify hmac secret sent ≡ ok "controller") ↔ ((sent ≡ some secret) × (secret ≢ "")))
    × ((e : Exception)
        → verify hmac secret sent ≡ raise e
        → (e ≡ missing_token)
          ⊎ (e ≡ invalid_token)
          ⊎ ((e ≡ type_error) × (t : String) × (sent ≡ some t) × (is_ascii t ≡ false)))
unfolding is_ascii
verify_lem_example = verify_lem hmac hmac-laws secret sent refl

abbrev pub runtime : Runtime
runtime = record {
  hash_prefix = λ s. s;
  str_int = λ i. "7";
  Seconds = ℕ;
  within_ttl = λ now at. ltb now (at + 60);
}

abbrev pub call_at : ℕ → Result Exception VtfPrincipal → Call runtime
call_at now answer = record { token = some "good"; now = now; validate_token = λ token. answer }

abbrev pub user : Principal
user = record { user_id = "7"; display_name = some "alice" }

-- The second call is answered from the cache: vtaskforge would refuse the token by then.
verify-Vouched_example :
    (token : String) × ((call_at 30 (raise vtf_auth_error)).token ≡ some token)
    × (token ≢ "")
    × (Vouched runtime (call_at 30 (raise vtf_auth_error)) token user
        ⊎ Earlier runtime
            (λ b. Vouched runtime b token user × (ltb 30 (b.now + 60) ≡ true))
            (call_at 0 (ok alice) ∷ []))
unfolding cache_after read_auth.verify Dict.get Dict.set
verify-Vouched_example =
    verify-Vouched runtime (call_at 0 (ok alice) ∷ []) (call_at 30 (raise vtf_auth_error)) user refl
