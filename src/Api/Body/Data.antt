-- ===== src/Api/Body/Data.antt =====
-- `AnyEvent` on a JSON body: the choice of the class by the tag, and the fields of `Event`.
use vfobs.Prelude.{Option, none, some}
use vfobs.Prelude.Result.{Result, ok, raise, some_or, Exception, validation_error, ◌>>=◌}
use vfobs.Events.Platform.{Platform}
use vfobs.Events.Classes.{EventClass, type_has_known_namespace}
use vfobs.Events.Namespaces.{Payload}
use vfobs.Events.Values.{classification_of}
use vfobs.Events.Base.{Event, Kwargs, Classification, new_event}
use vfobs.Events.Json.{Json, Members}
use vfobs.Events.Fields.{Scalars, get_member, text_of, as_object, required, defaulted, nullable}
use vfobs.Api.Body.{union_get}
use vfobs.Api.Body.Payloads.{
  anomaly_stuck_detected_data, gate_failed_data, gate_passed_data, gate_started_data,
  harness_tool_call_data, harness_turn_completed_data, harness_turn_started_data,
  judge_decision_data, judge_review_submitted_data, judge_started_data, task_claimed_data,
  task_heartbeat_data, task_state_changed_data, task_workdir_changed_data, workgraph_completed_data,
  workgraph_created_data, workgraph_state_changed_data,
}

module _ {P : Platform} (S : Scalars P) where
  -- The model of the field `data` of a class.
  unfoldable pub parse_data : EventClass → Members P → Result Exception (Payload P)
  unfolding anomaly_stuck_detected_data gate_failed_data gate_passed_data gate_started_data
      harness_tool_call_data harness_turn_completed_data harness_turn_started_data
      judge_decision_data judge_review_submitted_data judge_started_data task_claimed_data
      task_heartbeat_data task_state_changed_data task_workdir_changed_data workgraph_completed_data
      workgraph_created_data workgraph_state_changed_data
  parse_data EventClass.anomaly_stuck_detected m = anomaly_stuck_detected_data S m
  parse_data EventClass.gate_failed m = gate_failed_data S m
  parse_data EventClass.gate_passed m = gate_passed_data S m
  parse_data EventClass.gate_started m = gate_started_data S m
  parse_data EventClass.harness_tool_call m = harness_tool_call_data S m
  parse_data EventClass.harness_turn_completed m = harness_turn_completed_data S m
  parse_data EventClass.harness_turn_started m = harness_turn_started_data S m
  parse_data EventClass.judge_decision m = judge_decision_data S m
  parse_data EventClass.judge_review_submitted m = judge_review_submitted_data S m
  parse_data EventClass.judge_started m = judge_started_data S m
  parse_data EventClass.task_claimed m = task_claimed_data S m
  parse_data EventClass.task_heartbeat m = task_heartbeat_data S m
  parse_data EventClass.task_state_changed m = task_state_changed_data S m
  parse_data EventClass.task_workdir_changed m = task_workdir_changed_data S m
  parse_data EventClass.workgraph_completed m = workgraph_completed_data S m
  parse_data EventClass.workgraph_created m = workgraph_created_data S m
  parse_data EventClass.workgraph_state_changed m = workgraph_state_changed_data S m

  -- The enumeration's member of a JSON text.
  unfoldable pub as_classification : Json P → Option Classification
  unfolding text_of classification_of
  as_classification (Json.str s) = classification_of s
  as_classification _ = none

  -- The fields of the class `Event`, with the data.
  unfoldable pub parse_kwargs : Payload P → Members P → Result Exception (Kwargs P)
  unfolding get_member required defaulted nullable as_classification
  parse_kwargs payload m = do
    v ← defaulted S.as_int (get_member "v" m)
    workgraph_id ← required S.as_str (get_member "workgraph_id" m)
    task_id ← nullable S.as_str (get_member "task_id" m)
    agent_id ← nullable S.as_str (get_member "agent_id" m)
    trace_id ← nullable S.as_str (get_member "trace_id" m)
    source ← required S.as_str (get_member "source" m)
    timestamp ← required S.as_datetime (get_member "timestamp" m)
    classification ← defaulted as_classification (get_member "classification" m)
    org_id ← defaulted S.as_str (get_member "org_id" m)
    cluster_id ← defaulted S.as_str (get_member "cluster_id" m)
    ok (record {
      v = v;
      workgraph_id = workgraph_id;
      task_id = task_id;
      agent_id = agent_id;
      trace_id = trace_id;
      source = source;
      timestamp = timestamp;
      classification = classification;
      org_id = org_id;
      cluster_id = cluster_id;
      payload = payload;
    })

  -- The field `data`, which has no default.
  unfoldable pub data_members : Option (Json P) → Result Exception (Members P)
  unfolding as_object
  data_members none = raise validation_error
  data_members (some j) = as_object j

  -- `AnyEvent` on the JSON of a body: the tag chooses the class, which then validates the body.
  unfoldable pub parse_event : Json P → Result Exception (Event P)
  parse_event body = do
    members ← as_object body
    tag ← text_of (get_member "type" members)
    event_cls ← some_or validation_error (union_get tag)
    known ← type_has_known_namespace tag
    data_ ← data_members (get_member "data" members)
    payload ← parse_data event_cls data_
    kwargs ← parse_kwargs payload members
    new_event P kwargs
