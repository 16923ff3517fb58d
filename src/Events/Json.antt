-- ===== src/Events/Json.antt =====
-- Events as JSON: `model_dump(mode="json")` of an event, which lists the fields in the order in
-- which the models of src/vfobs/events declare them.
use vfobs.Prelude.{String, Bool, Option, none, some, List, [], ◌∷◌}
use vfobs.Prelude.Int.{ℤ}
use vfobs.Events.Platform.{Platform}
use vfobs.Events.Namespaces.{
  Payload, Decision, approved, changes_requested, rejected, ExecutionSummary,
}
use vfobs.Events.Values.{classification_value}
use vfobs.Events.Base.{Event, event_type}

abbrev pub decision_value : Decision → String
decision_value approved = "approved"
decision_value changes_requested = "changes_requested"
decision_value rejected = "rejected"

-- JSON values, the members of an object in order and under distinct keys. A time stands for the text
-- that pydantic makes of it.
mutual
  pub data Json (P : Platform) : Type 0 where
    null : Json P
    bool : Bool → Json P
    int : ℤ → Json P
    float : P.Float → Json P
    str : String → Json P
    time : P.Datetime → Json P
    array : Items P → Json P
    object : Members P → Json P

  pub data Items (P : Platform) : Type 0 where
    no_items : Items P
    item : Json P → Items P → Items P

  pub data Members (P : Platform) : Type 0 where
    done : Members P
    member : String → Json P → Members P → Members P

module _ {P : Platform} where
  -- None is null.
  abbrev pub opt : {A : Type 0} → (A → Json P) → Option A → Json P
  opt f none = null
  opt f (some a) = f a

  abbrev pub texts : List String → Items P
  texts [] = no_items
  texts (s ∷ l) = item (str s) (texts l)

  abbrev pub entries : List (String × String) → Members P
  entries [] = done
  entries ((k, s) ∷ l) = member k (str s) (entries l)

  abbrev pub summary_members : Option ℤ → Option ℤ → Option P.Float → Json P
  summary_members num_turns total_tokens cost_usd = object (
      member "num_turns" (opt int num_turns) (
        member "total_tokens" (opt int total_tokens) (member "cost_usd" (opt float cost_usd) done)))

  abbrev pub summary : ExecutionSummary P → Json P
  summary s = summary_members s.num_turns s.total_tokens s.cost_usd

  abbrev pub payload_json : Payload P → Json P
  payload_json (Payload.workgraph_created d) = object (
      member "created_by" (str d.created_by)
        (member "kind" (str d.kind) (member "target_repos" (array (texts d.target_repos)) done)))
  payload_json (Payload.workgraph_state_changed d) =
      object (member "from_status" (str d.from_status) (member "to_status" (str d.to_status) done))
  payload_json (Payload.workgraph_completed d) = object (
      member "terminal_status" (str d.terminal_status)
        (member "task_count" (int d.task_count) done))
  payload_json (Payload.task_claimed d) =
      object (member "claimed_by_agent_id" (str d.claimed_by_agent_id) done)
  payload_json (Payload.task_state_changed d) = object (
      member "from_status" (str d.from_status) (
        member "to_status" (str d.to_status)
          (member "execution_summary" (opt summary d.execution_summary) done)))
  payload_json (Payload.task_heartbeat d) =
      object (member "at" (time d.at) (member "current_turn" (opt int d.current_turn) done))
  payload_json (Payload.task_workdir_changed d) = object (
      member "files_changed" (int d.files_changed)
        (member "commits" (int d.commits) (member "branch" (opt str d.branch) done)))
  payload_json (Payload.harness_turn_started d) = object (
      member "turn_number" (int d.turn_number)
        (member "model" (str d.model) (member "prompt_tokens" (opt int d.prompt_tokens) done)))
  payload_json (Payload.harness_tool_call d) = object (
      member "turn_number" (int d.turn_number) (
        member "tool_name" (str d.tool_name)
          (member "tool_args_summary" (opt str d.tool_args_summary) done)))
  payload_json (Payload.harness_turn_completed d) = object (
      member "turn_number" (int d.turn_number) (
        member "completion_tokens" (opt int d.completion_tokens)
          (member "duration_ms" (opt int d.duration_ms) done)))
  payload_json (Payload.gate_started d) =
      object (member "gate_name" (str d.gate_name) (member "command" (str d.command) done))
  payload_json (Payload.gate_passed d) =
      object
        (member "gate_name" (str d.gate_name) (member "duration_ms" (opt int d.duration_ms) done))
  payload_json (Payload.gate_failed d) = object (
      member "gate_name" (str d.gate_name)
        (member "exit_code" (int d.exit_code) (member "stderr_tail" (opt str d.stderr_tail) done)))
  payload_json (Payload.judge_started d) =
      object (member "judge_agent_id" (str d.judge_agent_id) done)
  payload_json (Payload.judge_review_submitted d) =
      object (member "per_ac_verdicts" (object (entries d.per_ac_verdicts)) done)
  payload_json (Payload.judge_decision d) =
      object (
        member "decision" (str (decision_value d.decision)) (member "notes" (opt str d.notes) done))
  payload_json (Payload.anomaly_stuck_detected d) = object (
      member "last_activity_at" (time d.last_activity_at) (
        member "t_m_seconds" (int d.t_m_seconds)
          (member "last_seen_event_type" (opt str d.last_seen_event_type) done)))

  unfoldable pub event_members : Event P → Members P
  unfolding event_type
  event_members e = member "v" (int e.v) (
      member "type" (str (event_type e)) (
        member "workgraph_id" (str e.workgraph_id) (
          member "task_id" (opt str e.task_id) (
            member "agent_id" (opt str e.agent_id) (
              member "trace_id" (opt str e.trace_id) (
                member "source" (str e.source) (
                  member "timestamp" (time e.timestamp) (
                    member "classification" (str (classification_value e.classification)) (
                      member "org_id" (str e.org_id) (
                        member "cluster_id" (str e.cluster_id)
                          (member "data" (payload_json e.payload) done)))))))))))

  unfoldable pub event_json : Event P → Json P
  unfolding event_members
  event_json e = object (event_members e)
