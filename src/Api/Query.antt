-- ===== src/Api/Query.antt =====
-- `EventQuery` and `build_event_query` of src/vfobs/api/query.py: the parameters of a URL become a
-- query, or 422.
pub mod Meant
pub mod Built
use vfobs.Prelude.{
  ℕ, String, str_eq, Bool, true, false, not, ◌&&◌, ◌||◌, Option, none, some, List, [], ◌∷◌, get_or,
  is_some, if◌then◌else◌,
}
use vfobs.Prelude.Dict
use vfobs.Prelude.Dict.{string_key}
use vfobs.Prelude.Int.{ℤ, pos, ltb_ℤ}
use vfobs.Prelude.Result.{
  Result, ok, raise, some_or, Exception, validation_error, http_exception, ◌>>=◌, ◌>>◌,
}
use vfobs.Api.Reads.{EventQuery, default_org_id, default_limit}

-- What the model takes from pydantic: the integer of a text, or None; whether a field that is given
-- under its alias may be given under its name too; and the detail of a refusal.
pub record Pydantic : Type 0 where
  pub parse_int : String → Option ℤ
  pub takes_both : Bool
  pub detail : List (String × String) → String

-- The names of the fields other than `type_`, and the alias of that.
abbrev pub known_params : List String
known_params =
    "workgraph_id" ∷ "task_id" ∷ "agent_id" ∷ "type" ∷ "type_namespace" ∷ "org_id" ∷ "from_id"
    ∷ "limit" ∷ []

unfoldable pub contains : String → List String → Bool
contains s [] = false
contains s (x ∷ xs) = str_eq s x || contains s xs

-- `dict(request.query_params)`: the last value of a name counts.
unfoldable pub dict_of : List (String × String) → List (String × String) → List (String × String)
dict_of raw [] = raw
dict_of raw ((name, value) ∷ rest) = dict_of (Dict.set name value raw) rest

-- `model_config`: `populate_by_name=True`, and `extra="forbid"` of each name.
unfoldable pub is_known : Pydantic → List (String × String) → String → Bool
unfolding contains Dict.get
is_known Y raw name =
    contains name known_params
    || (str_eq name "type_" && (Y.takes_both || not (is_some (Dict.get "type" raw))))

unfoldable pub all_known : Pydantic → List (String × String) → List (String × String) → Bool
unfolding is_known
all_known Y raw [] = true
all_known Y raw ((name, value) ∷ rest) = is_known Y raw name && all_known Y raw rest

-- `Field(ge=low)`, and `Field(ge=1, le=1000)`.
abbrev pub field_ge : ℤ → ℤ → Result Exception ℤ
field_ge low i = if ltb_ℤ i low then raise validation_error else ok i

abbrev pub field_le : ℤ → ℤ → Result Exception ℤ
field_le high i = if ltb_ℤ high i then raise validation_error else ok i

-- The fields `from_id` and `limit`, of the text that is given or not.
unfoldable pub from_id_field : Pydantic → Option String → Result Exception (Option ℤ)
from_id_field Y none = ok none
from_id_field Y (some text) = do
  parsed ← some_or validation_error (Y.parse_int text)
  i ← field_ge (pos 0) parsed
  ok (some i)

unfoldable pub limit_field : Pydantic → Option String → Result Exception ℤ
limit_field Y none = ok default_limit
limit_field Y (some text) = do
  parsed ← some_or validation_error (Y.parse_int text)
  low ← field_ge (pos 1) parsed
  field_le (pos 1000) low

-- The field `type_`, by its alias or else by its name.
abbrev pub type_field : Option String → Option String → Option String
type_field none by_name = by_name
type_field (some by_alias) by_name = some by_alias

-- The query of the validated fields.
abbrev pub query_of : List (String × String) → Option ℤ → ℤ → EventQuery
query_of raw from_id limit = record {
  workgraph_id = Dict.get "workgraph_id" raw;
  task_id = Dict.get "task_id" raw;
  agent_id = Dict.get "agent_id" raw;
  type_ = type_field (Dict.get "type" raw) (Dict.get "type_" raw);
  type_namespace = Dict.get "type_namespace" raw;
  org_id = get_or (Dict.get "org_id" raw) default_org_id;
  from_id = from_id;
  limit = limit;
}

-- `EventQuery.model_validate`
unfoldable pub model_validate : Pydantic → List (String × String) → Result Exception EventQuery
unfolding all_known from_id_field limit_field Dict.get
model_validate Y raw =
    if all_known Y raw raw
    then (do
      from_id ← from_id_field Y (Dict.get "from_id" raw)
      limit ← limit_field Y (Dict.get "limit" raw)
      ok (query_of raw from_id limit))
    else raise validation_error

-- `except ValidationError`
abbrev pub refuse : String → Result Exception EventQuery → Result Exception EventQuery
refuse detail (ok q) = ok q
refuse detail (raise validation_error) = raise (http_exception 422 detail)
refuse detail (raise e) = raise e

unfoldable pub build_event_query : Pydantic → List (String × String) → Result Exception EventQuery
unfolding model_validate dict_of
build_event_query Y query_params =
    let raw = dict_of [] query_params in refuse (Y.detail raw) (model_validate Y raw)
