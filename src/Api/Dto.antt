-- ===== src/Api/Dto.antt =====
-- The response models of the read API: src/vfobs/api/dto.py and the two of api/cost.py.
use vfobs.Prelude.{ℕ, String, Option, none, some, List}
use vfobs.Prelude.Int.{ℤ}
use vfobs.Events.Platform.{Platform}
use vfobs.Events.Base.{event_type}
use vfobs.Repository.Model.{StoredEvent}
use vfobs.Adapters.Dto.{WorkgraphMetadata, TaskMetadata}

pub record VtfWorkgraphPart : Type 0 where
  pub status : Option String
  pub name : Option String
  pub description : Option String
  pub order : Option ℤ

-- `VtfWorkgraphPart.from_metadata`
unfoldable pub workgraph_part : WorkgraphMetadata → VtfWorkgraphPart
workgraph_part m = record {
  status = m.status;
  name = m.name;
  description = m.description;
  order = m.order;
}

pub record VtfTaskPart : Type 0 where
  pub status : Option String
  pub title : Option String
  pub description : Option String

-- `VtfTaskPart.from_metadata`
unfoldable pub task_part : TaskMetadata → VtfTaskPart
task_part m = record { status = m.status; title = m.title; description = m.description }

pub record VfobsPart (P : Platform) : Type 0 where
  pub event_count : ℕ
  pub last_event_id : Option ℕ
  pub last_event_type : Option String
  pub last_event_at : Option P.Datetime

-- `VfobsPart.build`
unfoldable pub build_part : {P : Platform} → ℕ → Option (StoredEvent P) → VfobsPart P
build_part count none = record {
  event_count = count;
  last_event_id = none;
  last_event_type = none;
  last_event_at = none;
}
build_part count (some tail) = record {
  event_count = count;
  last_event_id = some tail.id;
  last_event_type = some (event_type tail.event);
  last_event_at = some tail.event.timestamp;
}

pub record WorkgraphReadResponse (P : Platform) : Type 0 where
  pub v : ℤ
  pub workgraph_id : String
  pub vtf : Option VtfWorkgraphPart
  pub vfobs_part : VfobsPart P

pub record TaskReadResponse (P : Platform) : Type 0 where
  pub v : ℤ
  pub task_id : String
  pub vtf : Option VtfTaskPart
  pub vfobs_part : VfobsPart P

pub record TaskEventsResponse (P : Platform) : Type 0 where
  pub v : ℤ
  pub task_id : String
  pub events : List (StoredEvent P)
  pub next_from_id : Option ℤ

-- A value of `filter_applied`: a text or an integer.
pub data FilterValue : Type 0 where
  text : String → FilterValue
  number : ℤ → FilterValue

pub record EventsFilterResponse (P : Platform) : Type 0 where
  pub v : ℤ
  pub events : List (StoredEvent P)
  pub next_from_id : Option ℤ
  pub filter_applied : List (String × FilterValue)
