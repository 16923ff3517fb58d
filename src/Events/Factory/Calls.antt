-- ===== src/Events/Factory/Calls.antt =====
-- Any call of an `EventFactory` method.
use vfobs.Prelude.{String, Option, List, Bool, false, not, is_some}
use vfobs.Prelude.Int.{ℤ}
use vfobs.Prelude.Result.{Result, Exception}
use vfobs.Events.Platform.{Platform}
use vfobs.Events.Classes.{EventClass}
use vfobs.Events.Namespaces.{ExecutionSummary}
use vfobs.Events.Base.{Event}
use vfobs.Events.Factory.WorkgraphEvents
use vfobs.Events.Factory.TaskEvents
use vfobs.Events.Factory.HarnessEvents
use vfobs.Events.Factory.GateEvents
use vfobs.Events.Factory.{BaseKwargs, decision_of}

-- The keyword arguments that all methods have.
pub record Common (P : Platform) : Type 0 where
  pub workgraph_id : String
  pub source : String
  pub timestamp : Option P.Datetime
  pub base : BaseKwargs

-- A method with its other arguments; the task id comes first.
pub data Call (P : Platform) : Type 0 where
  workgraph_created : Option String → String → String → List String → Call P
  workgraph_state_changed : Option String → String → String → Call P
  workgraph_completed : Option String → String → ℤ → Call P
  task_claimed : String → String → Call P
  task_state_changed : String → String → String → Option (ExecutionSummary P) → Call P
  task_heartbeat : String → Option P.Datetime → Option ℤ → Call P
  task_workdir_changed : String → ℤ → ℤ → Option String → Call P
  harness_turn_started : String → ℤ → String → Option ℤ → Call P
  harness_tool_call : String → ℤ → String → Option String → Call P
  harness_turn_completed : String → ℤ → Option ℤ → Option ℤ → Call P
  gate_started : String → String → String → Call P
  gate_passed : String → String → Option ℤ → Call P
  gate_failed : String → String → ℤ → Option String → Call P
  judge_started : String → String → Call P
  judge_review_submitted : String → List (String × String) → Call P
  judge_decision : String → String → Option String → Call P
  anomaly_stuck_detected : String → P.Datetime → ℤ → Option String → Call P

unfoldable pub make : (P : Platform) → P.Datetime → Call P → Common P → Result Exception (Event P)
unfolding WorkgraphEvents.workgraph_created WorkgraphEvents.workgraph_state_changed
    WorkgraphEvents.workgraph_completed TaskEvents.task_claimed TaskEvents.task_state_changed
    TaskEvents.task_heartbeat TaskEvents.task_workdir_changed HarnessEvents.harness_turn_started
    HarnessEvents.harness_tool_call HarnessEvents.harness_turn_completed GateEvents.gate_started
    GateEvents.gate_passed GateEvents.gate_failed GateEvents.judge_started
    GateEvents.judge_review_submitted GateEvents.judge_decision GateEvents.anomaly_stuck_detected
make P now (workgraph_created task_id created_by kind target_repos) c =
    WorkgraphEvents.workgraph_created P now c.workgraph_id task_id c.source created_by kind
      target_repos c.timestamp c.base
make P now (workgraph_state_changed task_id from_status to_status) c =
    WorkgraphEvents.workgraph_state_changed P now c.workgraph_id task_id c.source from_status
      to_status c.timestamp c.base
make P now (workgraph_completed task_id terminal_status task_count) c =
    WorkgraphEvents.workgraph_completed P now c.workgraph_id task_id c.source terminal_status
      task_count c.timestamp c.base
make P now (task_claimed task_id claimed_by_agent_id) c =
    TaskEvents.task_claimed P now c.workgraph_id task_id c.source claimed_by_agent_id c.timestamp
      c.base
make P now (task_state_changed task_id from_status to_status execution_summary) c =
    TaskEvents.task_state_changed P now c.workgraph_id task_id c.source from_status to_status
      execution_summary c.timestamp c.base
make P now (task_heartbeat task_id at current_turn) c =
    TaskEvents.task_heartbeat P now c.workgraph_id task_id c.source at current_turn c.timestamp
      c.base
make P now (task_workdir_changed task_id files_changed commits branch) c =
    TaskEvents.task_workdir_changed P now c.workgraph_id task_id c.source files_changed commits
      branch c.timestamp c.base
make P now (harness_turn_started task_id turn_number model prompt_tokens) c =
    HarnessEvents.harness_turn_started P now c.workgraph_id task_id c.source turn_number model
      prompt_tokens c.timestamp c.base
make P now (harness_tool_call task_id turn_number tool_name tool_args_summary) c =
    HarnessEvents.harness_tool_call P now c.workgraph_id task_id c.source turn_number tool_name
      tool_args_summary c.timestamp c.base
make P now (harness_turn_completed task_id turn_number completion_tokens duration_ms) c =
    HarnessEvents.harness_turn_completed P now c.workgraph_id task_id c.source turn_number
      completion_tokens duration_ms c.timestamp c.base
make P now (gate_started task_id gate_name command) c =
    GateEvents.gate_started P now c.workgraph_id task_id c.source gate_name command c.timestamp
      c.base
make P now (gate_passed task_id gate_name duration_ms) c =
    GateEvents.gate_passed P now c.workgraph_id task_id c.source gate_name duration_ms c.timestamp
      c.base
make P now (gate_failed task_id gate_name exit_code stderr_tail) c =
    GateEvents.gate_failed P now c.workgraph_id task_id c.source gate_name exit_code stderr_tail
      c.timestamp c.base
make P now (judge_started task_id judge_agent_id) c =
    GateEvents.judge_started P now c.workgraph_id task_id c.source judge_agent_id c.timestamp c.base
make P now (judge_review_submitted task_id per_ac_verdicts) c =
    GateEvents.judge_review_submitted P now c.workgraph_id task_id c.source per_ac_verdicts
      c.timestamp c.base
make P now (judge_decision task_id decision notes) c =
    GateEvents.judge_decision P now c.workgraph_id task_id c.source decision notes c.timestamp
      c.base
make P now (anomaly_stuck_detected task_id last_activity_at t_m_seconds last_seen_event_type) c =
    GateEvents.anomaly_stuck_detected P now c.workgraph_id task_id c.source last_activity_at
      t_m_seconds last_seen_event_type c.timestamp c.base

-- The class of the events that the method makes.
abbrev pub class_called : {P : Platform} → Call P → EventClass
class_called (workgraph_created task_id created_by kind target_repos) = EventClass.workgraph_created
class_called (workgraph_state_changed task_id from_status to_status) =
    EventClass.workgraph_state_changed
class_called (workgraph_completed task_id terminal_status task_count) =
    EventClass.workgraph_completed
class_called (task_claimed task_id claimed_by_agent_id) = EventClass.task_claimed
class_called (task_state_changed task_id from_status to_status execution_summary) =
    EventClass.task_state_changed
class_called (task_heartbeat task_id at current_turn) = EventClass.task_heartbeat
class_called (task_workdir_changed task_id files_changed commits branch) =
    EventClass.task_workdir_changed
class_called (harness_turn_started task_id turn_number model prompt_tokens) =
    EventClass.harness_turn_started
class_called (harness_tool_call task_id turn_number tool_name tool_args_summary) =
    EventClass.harness_tool_call
class_called (harness_turn_completed task_id turn_number completion_tokens duration_ms) =
    EventClass.harness_turn_completed
class_called (gate_started task_id gate_name command) = EventClass.gate_started
class_called (gate_passed task_id gate_name duration_ms) = EventClass.gate_passed
class_called (gate_failed task_id gate_name exit_code stderr_tail) = EventClass.gate_failed
class_called (judge_started task_id judge_agent_id) = EventClass.judge_started
class_called (judge_review_submitted task_id per_ac_verdicts) = EventClass.judge_review_submitted
class_called (judge_decision task_id decision notes) = EventClass.judge_decision
class_called (anomaly_stuck_detected task_id last_activity_at t_m_seconds last_seen_event_type) =
    EventClass.anomaly_stuck_detected

-- The text of a decision is not one of the three.
abbrev pub misjudges : {P : Platform} → Call P → Bool
misjudges (judge_decision task_id decision notes) = not (is_some (decision_of decision))
misjudges _ = false
