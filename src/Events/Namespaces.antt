-- ===== src/Events/Namespaces.antt =====
-- The typed `data` models: src/vfobs/events/namespaces/*.py. A JSON object with string keys and
-- values is an association list.
use vfobs.Prelude.{String, Option, List}
use vfobs.Prelude.Int.{ℤ}
use vfobs.Events.Platform.{Platform}
use vfobs.Events.Classes.{EventClass}

pub record AnomalyStuckDetectedData (P : Platform) : Type 0 where
  pub last_activity_at : P.Datetime
  pub t_m_seconds : ℤ
  pub last_seen_event_type : Option String

pub record GateStartedData : Type 0 where
  pub gate_name : String
  pub command : String

pub record GatePassedData : Type 0 where
  pub gate_name : String
  pub duration_ms : Option ℤ

pub record GateFailedData : Type 0 where
  pub gate_name : String
  pub exit_code : ℤ
  pub stderr_tail : Option String

pub record HarnessTurnStartedData : Type 0 where
  pub turn_number : ℤ
  pub model : String
  pub prompt_tokens : Option ℤ

pub record HarnessToolCallData : Type 0 where
  pub turn_number : ℤ
  pub tool_name : String
  pub tool_args_summary : Option String

pub record HarnessTurnCompletedData : Type 0 where
  pub turn_number : ℤ
  pub completion_tokens : Option ℤ
  pub duration_ms : Option ℤ

pub record JudgeStartedData : Type 0 where
  pub judge_agent_id : String

pub record JudgeReviewSubmittedData : Type 0 where
  pub per_ac_verdicts : List (String × String)

pub data Decision : Type 0 where
  approved changes_requested rejected : Decision

pub record JudgeDecisionData : Type 0 where
  pub decision : Decision
  pub notes : Option String

pub record ExecutionSummary (P : Platform) : Type 0 where
  pub num_turns : Option ℤ
  pub total_tokens : Option ℤ
  pub cost_usd : Option P.Float

pub record TaskClaimedData : Type 0 where
  pub claimed_by_agent_id : String

pub record TaskStateChangedData (P : Platform) : Type 0 where
  pub from_status : String
  pub to_status : String
  pub execution_summary : Option (ExecutionSummary P)

pub record TaskHeartbeatData (P : Platform) : Type 0 where
  pub at : P.Datetime
  pub current_turn : Option ℤ

pub record TaskWorkdirChangedData : Type 0 where
  pub files_changed : ℤ
  pub commits : ℤ
  pub branch : Option String

pub record WorkgraphCreatedData : Type 0 where
  pub created_by : String
  pub kind : String
  pub target_repos : List String

pub record WorkgraphStateChangedData : Type 0 where
  pub from_status : String
  pub to_status : String

pub record WorkgraphCompletedData : Type 0 where
  pub terminal_status : String
  pub task_count : ℤ

-- The field `data` of the event classes: a constructor for each class.
pub data Payload (P : Platform) : Type 0 where
  anomaly_stuck_detected : AnomalyStuckDetectedData P → Payload P
  gate_failed : GateFailedData → Payload P
  gate_passed : GatePassedData → Payload P
  gate_started : GateStartedData → Payload P
  harness_tool_call : HarnessToolCallData → Payload P
  harness_turn_completed : HarnessTurnCompletedData → Payload P
  harness_turn_started : HarnessTurnStartedData → Payload P
  judge_decision : JudgeDecisionData → Payload P
  judge_review_submitted : JudgeReviewSubmittedData → Payload P
  judge_started : JudgeStartedData → Payload P
  task_claimed : TaskClaimedData → Payload P
  task_heartbeat : TaskHeartbeatData P → Payload P
  task_state_changed : TaskStateChangedData P → Payload P
  task_workdir_changed : TaskWorkdirChangedData → Payload P
  workgraph_completed : WorkgraphCompletedData → Payload P
  workgraph_created : WorkgraphCreatedData → Payload P
  workgraph_state_changed : WorkgraphStateChangedData → Payload P

unfoldable pub class_of : {P : Platform} → Payload P → EventClass
class_of (anomaly_stuck_detected d) = EventClass.anomaly_stuck_detected
class_of (gate_failed d) = EventClass.gate_failed
class_of (gate_passed d) = EventClass.gate_passed
class_of (gate_started d) = EventClass.gate_started
class_of (harness_tool_call d) = EventClass.harness_tool_call
class_of (harness_turn_completed d) = EventClass.harness_turn_completed
class_of (harness_turn_started d) = EventClass.harness_turn_started
class_of (judge_decision d) = EventClass.judge_decision
class_of (judge_review_submitted d) = EventClass.judge_review_submitted
class_of (judge_started d) = EventClass.judge_started
class_of (task_claimed d) = EventClass.task_claimed
class_of (task_heartbeat d) = EventClass.task_heartbeat
class_of (task_state_changed d) = EventClass.task_state_changed
class_of (task_workdir_changed d) = EventClass.task_workdir_changed
class_of (workgraph_completed d) = EventClass.workgraph_completed
class_of (workgraph_created d) = EventClass.workgraph_created
class_of (workgraph_state_changed d) = EventClass.workgraph_state_changed

-- `getattr(ev.data, "execution_summary", None)`: only one data model has the attribute.
unfoldable pub execution_summary_of : {P : Platform} → Payload P → Option (ExecutionSummary P)
execution_summary_of (task_state_changed d) = d.execution_summary
execution_summary_of _ = Option.none
