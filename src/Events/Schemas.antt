-- ===== src/Events/Schemas.antt =====
-- `dump_event_schemas` of src/vfobs/events/schema.py, over the JSON schema that pydantic makes of a
-- class.
use vfobs.Prelude.{◌≡◌, refl, String, Bool, true, ◌&&◌, some, List, [], ◌∷◌, if◌then◌else◌}
use vfobs.Prelude.Dict
use vfobs.Prelude.Dict.{string_key}
use text.Mathlib.Text.{is_lt}
use Prim.Native.String.{compare}
use vfobs.Events.Classes.{EventClass, type_value, event_classes}

module _ {Schema : Type 0} where
  -- `sorted(items)`: the keys of a dict are distinct, so they decide alone.
  unfoldable pub insert_item : String × Schema → List (String × Schema) → List (String × Schema)
  insert_item x [] = x ∷ []
  insert_item x (y ∷ ys) =
      let rest = insert_item x ys in if is_lt (compare y.0 x.0) then y ∷ rest else x ∷ y ∷ ys

  unfoldable pub sorted_items : List (String × Schema) → List (String × Schema)
  unfolding insert_item
  sorted_items [] = []
  sorted_items (x ∷ xs) = insert_item x (sorted_items xs)

  -- The loop of `dump_event_schemas`.
  unfoldable pub schemas_of :
      (EventClass → Schema) → List EventClass → List (String × Schema) → List (String × Schema)
  unfolding type_value
  schemas_of model_json_schema [] out = out
  schemas_of model_json_schema (k ∷ ks) out =
      schemas_of model_json_schema ks (Dict.set (type_value k) (model_json_schema k) out)

  unfoldable pub dump_event_schemas : (EventClass → Schema) → List (String × Schema)
  unfolding sorted_items schemas_of
  dump_event_schemas model_json_schema =
      sorted_items (schemas_of model_json_schema event_classes [])

  -- Each key comes before the next.
  abbrev pub is_sorted : List (String × Schema) → Bool
  is_sorted [] = true
  is_sorted (x ∷ []) = true
  is_sorted (x ∷ y ∷ ys) = is_lt (compare x.0 y.0) && is_sorted (y ∷ ys)

  -- The fixture lists every class under its own type, in the order of the types.
  pub dump_event_schemas_lem :
      (model_json_schema : EventClass → Schema) (k : EventClass)
      → (Dict.get (type_value k) (dump_event_schemas model_json_schema)
          ≡ some (model_json_schema k))
        × (is_sorted (dump_event_schemas model_json_schema) ≡ true)
  unfolding dump_event_schemas Dict.get Dict.set
  dump_event_schemas_lem f EventClass.anomaly_stuck_detected = (refl, refl)
  dump_event_schemas_lem f _ = (refl, refl)
