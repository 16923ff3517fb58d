-- ===== src/Repository/Postgres/Rows.antt =====
-- Events as rows and back: `_event_to_row`, `_row_to_event` and `_row_to_stored`.
use vfobs.Prelude.{ℕ, ◌≡◌, String, Bool, true, Option, some}
use vfobs.Prelude.Result.{
  Result, ok, some_or, Exception, key_error, value_error, validation_error, ◌>>=◌,
}
use vfobs.Events.Platform.{Platform}
use vfobs.Events.Classes.{EventClass, registry_get, registry-type_value}
use vfobs.Events.Namespaces.{Payload, class_of}
use vfobs.Events.Values.{classification_value, classification_of, classification_of-value}
use vfobs.Events.Base.{Classification, Event, event_type, Kwargs, new_event, kwargs_of}
use vfobs.Repository.Model.{StoredEvent}
use vfobs.Repository.Postgres.Sql.{RawData, parsed, raw, Row}

-- What pydantic and `json` do: the JSON of a payload (`model_dump(mode="json")`), `json.dumps`,
-- `json.loads`, and the validation of JSON as the `data` of a class; None where it raises.
pub record Codec (P : Platform) : Type 1 where
  pub Json : Type 0
  pub dump_data : Payload P → Json
  pub dumps : Json → String
  pub loads : String → Option Json
  pub validate_data : EventClass → Json → Option (Payload P)
  -- every float of the payload is finite
  pub is_finite : Payload P → Bool

-- Documented: JSON text gives the JSON back, and a dump of finite numbers validates to the model.
pub record CodecLaws {P : Platform} (C : Codec P) : Type 0 where
  pub loads-dumps : (j : C.Json) → C.loads (C.dumps j) ≡ some j
  pub validate-dump :
      (p : Payload P) → C.is_finite p ≡ true → C.validate_data (class_of p) (C.dump_data p) ≡ some p

module _ {P : Platform} (C : Codec P) where
  -- `_event_to_row`
  unfoldable pub event_to_row : Event P → Row P C.Json
  unfolding event_type
  event_to_row e = record {
    v = e.v;
    workgraph_id = e.workgraph_id;
    task_id = e.task_id;
    agent_id = e.agent_id;
    trace_id = e.trace_id;
    source = e.source;
    type_ = event_type e;
    timestamp = e.timestamp;
    raw_data = raw (C.dumps (C.dump_data e.payload));
    classification = classification_value e.classification;
    org_id = e.org_id;
    cluster_id = e.cluster_id;
  }

  -- `raw_data if isinstance(raw_data, dict) else json.loads(raw_data)`
  abbrev pub json_of : RawData C.Json → Option C.Json
  json_of (parsed j) = some j
  json_of (raw s) = C.loads s

  -- The keyword arguments of the validated columns.
  abbrev pub row_kwargs : Row P C.Json → Classification → Payload P → Kwargs P
  row_kwargs r classification payload = record {
    v = some r.v;
    workgraph_id = r.workgraph_id;
    task_id = r.task_id;
    agent_id = r.agent_id;
    trace_id = r.trace_id;
    source = r.source;
    timestamp = r.timestamp;
    classification = some classification;
    org_id = some r.org_id;
    cluster_id = some r.cluster_id;
    payload = payload;
  }

  -- `_row_to_event`: the registry gives the class of the row's type, which then validates the row.
  unfoldable pub row_to_event : Row P C.Json → Result Exception (Event P)
  unfolding registry_get classification_of
  row_to_event r = do
    event_cls ← some_or key_error (registry_get r.type_)
    data_ ← some_or value_error (json_of r.raw_data)
    payload ← some_or validation_error (C.validate_data event_cls data_)
    classification ← some_or validation_error (classification_of r.classification)
    new_event P (row_kwargs r classification payload)

  -- `_row_to_stored`
  unfoldable pub row_to_stored : ℕ × Row P C.Json → Result Exception (StoredEvent P)
  unfolding row_to_event
  row_to_stored (eid, r) = do ev ← row_to_event r; ok (record { id = eid; event = ev })

  -- The row as it comes back from the table, with its data in another form.
  abbrev pub with_data : RawData C.Json → Row P C.Json → Row P C.Json
  with_data d r = record r { raw_data = d }

  -- An event that the constructor gives back from its own fields, with finite numbers, comes back
  -- from its row as it was, in whatever form the database gives the JSON value of its data.
  pub row_to_event-event_to_row :
      (laws : CodecLaws C) (e : Event P) (d : RawData C.Json)
      → C.is_finite e.payload ≡ true
      → new_event P (kwargs_of e) ≡ ok e
      → json_of d ≡ json_of (event_to_row e).raw_data
      → row_to_event (with_data d (event_to_row e)) ≡ ok e
  unfolding row_to_event event_to_row event_type
  row_to_event-event_to_row laws e d finite stable same =
      rw
        (
          (registry-type_value (class_of e.payload)).0,
          same,
          laws.loads-dumps (C.dump_data e.payload),
          laws.validate-dump e.payload finite,
          classification_of-value e.classification,
        )
        stable
