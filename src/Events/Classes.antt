-- ===== src/Events/Classes.antt =====
-- The event classes, their `type` literals, the namespaces, and the registry:
-- src/vfobs/events/base.py, schema.py, _dispatch.py and the `type` fields of namespaces/*.py.
use Prim.Native.Char.{code}
use vfobs.Prelude.{
  ◌≡◌, refl, String, str_eq, Bool, false, ◌||◌, List, [], ◌∷◌, map, Option, none, some, ◌==◌,
  if◌then◌else◌,
}
use vfobs.Prelude.Result.{Result, ok, raise, Exception, validation_error}

-- One member for each concrete subclass of `Event`.
pub data EventClass : Type 0 where
  anomaly_stuck_detected : EventClass
  gate_failed gate_passed gate_started : EventClass
  harness_tool_call harness_turn_completed harness_turn_started : EventClass
  judge_decision judge_review_submitted judge_started : EventClass
  task_claimed task_heartbeat task_state_changed task_workdir_changed : EventClass
  workgraph_completed workgraph_created workgraph_state_changed : EventClass

-- `_type_value`: the default of the field `type` of a class.
unfoldable pub type_value : EventClass → String
type_value anomaly_stuck_detected = "anomaly.stuck_detected"
type_value gate_failed = "gate.failed"
type_value gate_passed = "gate.passed"
type_value gate_started = "gate.started"
type_value harness_tool_call = "harness.tool_call"
type_value harness_turn_completed = "harness.turn_completed"
type_value harness_turn_started = "harness.turn_started"
type_value judge_decision = "judge.decision"
type_value judge_review_submitted = "judge.review_submitted"
type_value judge_started = "judge.started"
type_value task_claimed = "task.claimed"
type_value task_heartbeat = "task.heartbeat"
type_value task_state_changed = "task.state_changed"
type_value task_workdir_changed = "task.workdir_changed"
type_value workgraph_completed = "workgraph.completed"
type_value workgraph_created = "workgraph.created"
type_value workgraph_state_changed = "workgraph.state_changed"

-- `EVENT_CLASSES`
abbrev pub event_classes : List EventClass
event_classes =
    anomaly_stuck_detected ∷ gate_failed ∷ gate_passed ∷ gate_started ∷ harness_tool_call
    ∷ harness_turn_completed ∷ harness_turn_started ∷ judge_decision ∷ judge_review_submitted
    ∷ judge_started ∷ task_claimed ∷ task_heartbeat ∷ task_state_changed ∷ task_workdir_changed
    ∷ workgraph_completed ∷ workgraph_created ∷ workgraph_state_changed ∷ []

-- `EVENT_TYPE_REGISTRY`, and the lookup `EVENT_TYPE_REGISTRY[t]`.
unfoldable pub event_type_registry : List (String × EventClass)
unfolding type_value
event_type_registry = map (λ c. (type_value c, c)) event_classes

unfoldable pub lookup_in : String → List (String × EventClass) → Option EventClass
lookup_in t [] = none
lookup_in t ((k, c) ∷ rest) = if str_eq k t then some c else lookup_in t rest

unfoldable pub registry_get : String → Option EventClass
unfolding event_type_registry lookup_in
registry_get t = lookup_in t event_type_registry

-- `t.partition(".")[0]`, and `t.split(".", 1)[0]`: what stands before the first dot.
unfoldable pub before_dot : String → String
before_dot String.[] = ""
before_dot (String.◌∷◌ c s) = if code c == b'.' then "" else String.◌∷◌ c (before_dot s)

-- `_VALID_NAMESPACES`, the values of `EventNamespace`.
abbrev pub valid_namespaces : List String
valid_namespaces = "workgraph" ∷ "task" ∷ "harness" ∷ "gate" ∷ "judge" ∷ "anomaly" ∷ []

contains : String → List String → Bool
contains s [] = false
contains s (x ∷ xs) = str_eq s x || contains s xs

-- `_type_has_known_namespace`
unfoldable pub type_has_known_namespace : String → Result Exception String
unfolding before_dot contains
type_has_known_namespace v =
    if contains (before_dot v) valid_namespaces then ok v else raise validation_error

-- Each class is found in the registry under its own `type`, and passes the namespace validator.
pub registry-type_value :
    (c : EventClass)
    → (registry_get (type_value c) ≡ some c)
      × (type_has_known_namespace (type_value c) ≡ ok (type_value c))
unfolding registry_get type_has_known_namespace
registry-type_value anomaly_stuck_detected = (refl, refl)
registry-type_value _ = (refl, refl)
