-- ===== src/Adapters/Validate.antt =====
-- The models of src/vfobs/adapters/dto.py on JSON: `model_validate`, which ignores what it does not
-- know.
use vfobs.Prelude.{◌≡◌, String, Bool, false, Option, none, some, get_or}
use vfobs.Prelude.Result.{Result, ok, raise, Exception, ◌>>=◌}
use vfobs.Events.Platform.{Platform}
use vfobs.Events.Json.{Json, bool, int, str}
use vfobs.Events.Fields.{Scalars, get_member, as_object, required, defaulted, nullable}
use vfobs.Prelude.Int.{ℤ}
use vfobs.Adapters.Dto.{ResourceId, number, text, VtfPrincipal, WorkgraphMetadata, TaskMetadata}

-- pydantic's validators of `bool` and of `int | str`.
pub record DtoScalars (P : Platform) : Type 0 where
  pub scalars : Scalars P
  pub as_bool : Json P → Option Bool
  pub as_id : Json P → Option ResourceId

-- Documented: each reads the JSON of a value of its type, a text among them as a text.
pub record DtoLaws {P : Platform} (D : DtoScalars P) : Type 0 where
  pub as_bool-bool : (b : Bool) → D.as_bool (bool b) ≡ some b
  pub as_id-int : (i : ℤ) → D.as_id (int i) ≡ some (number i)
  pub as_id-str : (s : String) → D.as_id (str s) ≡ some (text s)

-- What is or_none, None where an exception is raised.
abbrev or_none : {A : Type 0} → Result Exception A → Option A
or_none (ok a) = some a
or_none (raise e) = none

module _ {P : Platform} (D : DtoScalars P) where
  abbrev S : Scalars P
  S = D.scalars

  -- `VtfPrincipal`
  principal_fields : Json P → Result Exception VtfPrincipal
  unfolding as_object get_member required defaulted nullable
  principal_fields j = do
    m ← as_object j
    user_id ← required D.as_id (get_member "user_id" m)
    username ← nullable S.as_str (get_member "username" m)
    user_type ← nullable S.as_str (get_member "user_type" m)
    is_staff ← defaulted D.as_bool (get_member "is_staff" m)
    ok (record {
      user_id = user_id;
      username = username;
      user_type = user_type;
      is_staff = get_or is_staff false;
    })

  unfoldable pub validate_principal : Json P → Option VtfPrincipal
  unfolding principal_fields
  validate_principal j = or_none (principal_fields j)

  -- `WorkgraphMetadata`
  workgraph_fields : Json P → Result Exception WorkgraphMetadata
  unfolding as_object get_member required nullable
  workgraph_fields j = do
    m ← as_object j
    id ← required D.as_id (get_member "id" m)
    name ← nullable S.as_str (get_member "name" m)
    status ← nullable S.as_str (get_member "status" m)
    description ← nullable S.as_str (get_member "description" m)
    order ← nullable S.as_int (get_member "order" m)
    workplan ← nullable D.as_id (get_member "workplan" m)
    ok (record {
      id = id;
      name = name;
      status = status;
      description = description;
      order = order;
      workplan = workplan;
    })

  unfoldable pub validate_workgraph : Json P → Option WorkgraphMetadata
  unfolding workgraph_fields
  validate_workgraph j = or_none (workgraph_fields j)

  -- `TaskMetadata`
  task_fields : Json P → Result Exception TaskMetadata
  unfolding as_object get_member required nullable
  task_fields j = do
    m ← as_object j
    id ← required D.as_id (get_member "id" m)
    title ← nullable S.as_str (get_member "title" m)
    status ← nullable S.as_str (get_member "status" m)
    description ← nullable S.as_str (get_member "description" m)
    ok (record { id = id; title = title; status = status; description = description })

  unfoldable pub validate_task : Json P → Option TaskMetadata
  unfolding task_fields
  validate_task j = or_none (task_fields j)
