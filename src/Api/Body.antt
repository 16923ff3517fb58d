-- ===== src/Api/Body.antt =====
-- The body of `POST /events`: `AnyEvent` of src/vfobs/api/events.py, as pydantic validates JSON by it
-- and by the models of src/vfobs/events.
pub mod Payloads
pub mod Data
pub mod RoundTrip
pub mod Accepted
pub mod Refused
use vfobs.Prelude.{String, Option, List, [], ◌∷◌, map}
use vfobs.Events.Classes.{EventClass, type_value, lookup_in}

-- The members of the union, in its order, and the one with a tag.
abbrev pub any_event : List EventClass
any_event =
    EventClass.workgraph_created ∷ EventClass.workgraph_state_changed
    ∷ EventClass.workgraph_completed ∷ EventClass.task_claimed ∷ EventClass.task_state_changed
    ∷ EventClass.task_heartbeat ∷ EventClass.task_workdir_changed ∷ EventClass.harness_turn_started
    ∷ EventClass.harness_tool_call ∷ EventClass.harness_turn_completed ∷ EventClass.gate_started
    ∷ EventClass.gate_passed ∷ EventClass.gate_failed ∷ EventClass.judge_started
    ∷ EventClass.judge_review_submitted ∷ EventClass.judge_decision
    ∷ EventClass.anomaly_stuck_detected ∷ []

unfoldable pub union_get : String → Option EventClass
unfolding type_value lookup_in
union_get tag = lookup_in tag (map (λ k. (type_value k, k)) any_event)
