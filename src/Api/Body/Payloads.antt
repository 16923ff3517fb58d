-- ===== src/Api/Body/Payloads.antt =====
-- The models of the field `data` on a JSON object: src/vfobs/events/namespaces.
use vfobs.Prelude.{Option, none, some}
use vfobs.Prelude.Result.{Result, ok, some_or, Exception, validation_error, ◌>>=◌}
use vfobs.Events.Platform.{Platform}
use vfobs.Events.Namespaces.{Payload, ExecutionSummary}
use vfobs.Events.Factory.{decision_of}
use vfobs.Events.Json.{Json, null, Members}
use vfobs.Events.Fields.{
  Scalars, get_member, text_of, as_object, required, nullable, str_list, str_dict,
}

module _ {P : Platform} (S : Scalars P) where
  unfoldable pub summary_data : Members P → Result Exception (ExecutionSummary P)
  unfolding get_member nullable
  summary_data members = do
    num_turns ← nullable S.as_int (get_member "num_turns" members)
    total_tokens ← nullable S.as_int (get_member "total_tokens" members)
    cost_usd ← nullable S.as_float (get_member "cost_usd" members)
    ok (record { num_turns = num_turns; total_tokens = total_tokens; cost_usd = cost_usd })

  unfoldable pub given_summary : Json P → Result Exception (Option (ExecutionSummary P))
  unfolding as_object summary_data
  given_summary j = do members ← as_object j; summary ← summary_data members; ok (some summary)

  -- The field `execution_summary: ExecutionSummary | None = None`.
  unfoldable pub summary_field : Option (Json P) → Result Exception (Option (ExecutionSummary P))
  unfolding given_summary
  summary_field none = ok none
  summary_field (some null) = ok none
  summary_field (some j) = given_summary j

  unfoldable pub anomaly_stuck_detected_data : Members P → Result Exception (Payload P)
  unfolding get_member required nullable
  anomaly_stuck_detected_data m = do
    at ← required S.as_datetime (get_member "last_activity_at" m)
    seconds ← required S.as_int (get_member "t_m_seconds" m)
    last ← nullable S.as_str (get_member "last_seen_event_type" m)
    ok (
        Payload.anomaly_stuck_detected
          (record { last_activity_at = at; t_m_seconds = seconds; last_seen_event_type = last }))

  unfoldable pub gate_failed_data : Members P → Result Exception (Payload P)
  unfolding get_member required nullable
  gate_failed_data m = do
    gate_name ← required S.as_str (get_member "gate_name" m)
    exit_code ← required S.as_int (get_member "exit_code" m)
    tail ← nullable S.as_str (get_member "stderr_tail" m)
    ok (
        Payload.gate_failed
          (record { gate_name = gate_name; exit_code = exit_code; stderr_tail = tail }))

  unfoldable pub gate_passed_data : Members P → Result Exception (Payload P)
  unfolding get_member required nullable
  gate_passed_data m = do
    gate_name ← required S.as_str (get_member "gate_name" m)
    duration_ms ← nullable S.as_int (get_member "duration_ms" m)
    ok (Payload.gate_passed (record { gate_name = gate_name; duration_ms = duration_ms }))

  unfoldable pub gate_started_data : Members P → Result Exception (Payload P)
  unfolding get_member required
  gate_started_data m = do
    gate_name ← required S.as_str (get_member "gate_name" m)
    command ← required S.as_str (get_member "command" m)
    ok (Payload.gate_started (record { gate_name = gate_name; command = command }))

  unfoldable pub harness_tool_call_data : Members P → Result Exception (Payload P)
  unfolding get_member required nullable
  harness_tool_call_data m = do
    turn_number ← required S.as_int (get_member "turn_number" m)
    tool_name ← required S.as_str (get_member "tool_name" m)
    args ← nullable S.as_str (get_member "tool_args_summary" m)
    ok (
        Payload.harness_tool_call
          (record { turn_number = turn_number; tool_name = tool_name; tool_args_summary = args }))

  unfoldable pub harness_turn_completed_data : Members P → Result Exception (Payload P)
  unfolding get_member required nullable
  harness_turn_completed_data m = do
    turn_number ← required S.as_int (get_member "turn_number" m)
    tokens ← nullable S.as_int (get_member "completion_tokens" m)
    duration_ms ← nullable S.as_int (get_member "duration_ms" m)
    ok (
        Payload.harness_turn_completed (record {
          turn_number = turn_number;
          completion_tokens = tokens;
          duration_ms = duration_ms;
        }))

  unfoldable pub harness_turn_started_data : Members P → Result Exception (Payload P)
  unfolding get_member required nullable
  harness_turn_started_data m = do
    turn_number ← required S.as_int (get_member "turn_number" m)
    model ← required S.as_str (get_member "model" m)
    tokens ← nullable S.as_int (get_member "prompt_tokens" m)
    ok (
        Payload.harness_turn_started
          (record { turn_number = turn_number; model = model; prompt_tokens = tokens }))

  unfoldable pub judge_decision_data : Members P → Result Exception (Payload P)
  unfolding get_member nullable text_of decision_of
  judge_decision_data m = do
    text ← text_of (get_member "decision" m)
    decision ← some_or validation_error (decision_of text)
    notes ← nullable S.as_str (get_member "notes" m)
    ok (Payload.judge_decision (record { decision = decision; notes = notes }))

  unfoldable pub judge_review_submitted_data : Members P → Result Exception (Payload P)
  unfolding get_member str_dict
  judge_review_submitted_data m = do
    verdicts ← str_dict S.as_str (get_member "per_ac_verdicts" m)
    ok (Payload.judge_review_submitted (record { per_ac_verdicts = verdicts }))

  unfoldable pub judge_started_data : Members P → Result Exception (Payload P)
  unfolding get_member required
  judge_started_data m = do
    agent ← required S.as_str (get_member "judge_agent_id" m)
    ok (Payload.judge_started (record { judge_agent_id = agent }))

  unfoldable pub task_claimed_data : Members P → Result Exception (Payload P)
  unfolding get_member required
  task_claimed_data m = do
    agent ← required S.as_str (get_member "claimed_by_agent_id" m)
    ok (Payload.task_claimed (record { claimed_by_agent_id = agent }))

  unfoldable pub task_heartbeat_data : Members P → Result Exception (Payload P)
  unfolding get_member required nullable
  task_heartbeat_data m = do
    at ← required S.as_datetime (get_member "at" m)
    current_turn ← nullable S.as_int (get_member "current_turn" m)
    ok (Payload.task_heartbeat (record { at = at; current_turn = current_turn }))

  unfoldable pub task_state_changed_data : Members P → Result Exception (Payload P)
  unfolding get_member required summary_field
  task_state_changed_data m = do
    from_status ← required S.as_str (get_member "from_status" m)
    to_status ← required S.as_str (get_member "to_status" m)
    summary ← summary_field (get_member "execution_summary" m)
    ok (
        Payload.task_state_changed (record {
          from_status = from_status;
          to_status = to_status;
          execution_summary = summary;
        }))

  unfoldable pub task_workdir_changed_data : Members P → Result Exception (Payload P)
  unfolding get_member required nullable
  task_workdir_changed_data m = do
    files_changed ← required S.as_int (get_member "files_changed" m)
    commits ← required S.as_int (get_member "commits" m)
    branch ← nullable S.as_str (get_member "branch" m)
    ok (
        Payload.task_workdir_changed
          (record { files_changed = files_changed; commits = commits; branch = branch }))

  unfoldable pub workgraph_completed_data : Members P → Result Exception (Payload P)
  unfolding get_member required
  workgraph_completed_data m = do
    status ← required S.as_str (get_member "terminal_status" m)
    task_count ← required S.as_int (get_member "task_count" m)
    ok (Payload.workgraph_completed (record { terminal_status = status; task_count = task_count }))

  unfoldable pub workgraph_created_data : Members P → Result Exception (Payload P)
  unfolding get_member required str_list
  workgraph_created_data m = do
    created_by ← required S.as_str (get_member "created_by" m)
    kind ← required S.as_str (get_member "kind" m)
    target_repos ← str_list S.as_str (get_member "target_repos" m)
    ok (
        Payload.workgraph_created
          (record { created_by = created_by; kind = kind; target_repos = target_repos }))

  unfoldable pub workgraph_state_changed_data : Members P → Result Exception (Payload P)
  unfolding get_member required
  workgraph_state_changed_data m = do
    from_status ← required S.as_str (get_member "from_status" m)
    to_status ← required S.as_str (get_member "to_status" m)
    ok (
        Payload.workgraph_state_changed
          (record { from_status = from_status; to_status = to_status }))
