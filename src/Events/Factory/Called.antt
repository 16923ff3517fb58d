-- ===== src/Events/Factory/Called.antt =====
-- What the methods of `EventFactory` hand to the constructor of their event.
use vfobs.Prelude.{◌≡◌, refl, String, true, false, Option, some, get_or, inl, inr, Option-cases}
use vfobs.Prelude.Result.{Result, ok, raise, Exception, validation_error, ◌>>=◌}
use vfobs.Events.Platform.{Platform}
use vfobs.Events.Namespaces.{Payload, class_of}
use vfobs.Events.Factory.{create, decision_of, decision_data}
use vfobs.Events.Factory.Calls.{Call, Common, make, class_called, misjudges, judge_decision}

module _ {P : Platform} where
  -- The task of the event that a call makes, and its data.
  abbrev pub task_called : Call P → Option String
  task_called (Call.workgraph_created t _ _ _) = t
  task_called (Call.workgraph_state_changed t _ _) = t
  task_called (Call.workgraph_completed t _ _) = t
  task_called (Call.task_claimed t _) = some t
  task_called (Call.task_state_changed t _ _ _) = some t
  task_called (Call.task_heartbeat t _ _) = some t
  task_called (Call.task_workdir_changed t _ _ _) = some t
  task_called (Call.harness_turn_started t _ _ _) = some t
  task_called (Call.harness_tool_call t _ _ _) = some t
  task_called (Call.harness_turn_completed t _ _ _) = some t
  task_called (Call.gate_started t _ _) = some t
  task_called (Call.gate_passed t _ _) = some t
  task_called (Call.gate_failed t _ _ _) = some t
  task_called (Call.judge_started t _) = some t
  task_called (Call.judge_review_submitted t _) = some t
  task_called (Call.judge_decision t _ _) = some t
  task_called (Call.anomaly_stuck_detected t _ _ _) = some t

  unfoldable pub payload_called : P.Datetime → Call P → Result Exception (Payload P)
  unfolding decision_data
  payload_called now (Call.workgraph_created t created_by kind target_repos) = ok (
      Payload.workgraph_created
        (record { created_by = created_by; kind = kind; target_repos = target_repos }))
  payload_called now (Call.workgraph_state_changed t from_status to_status) = ok (
      Payload.workgraph_state_changed (record { from_status = from_status; to_status = to_status }))
  payload_called now (Call.workgraph_completed t terminal_status task_count) = ok (
      Payload.workgraph_completed
        (record { terminal_status = terminal_status; task_count = task_count }))
  payload_called now (Call.task_claimed t claimed_by_agent_id) =
      ok (Payload.task_claimed (record { claimed_by_agent_id = claimed_by_agent_id }))
  payload_called now (Call.task_state_changed t from_status to_status execution_summary) = ok (
      Payload.task_state_changed (record {
        from_status = from_status;
        to_status = to_status;
        execution_summary = execution_summary;
      }))
  payload_called now (Call.task_heartbeat t at current_turn) =
      ok (Payload.task_heartbeat (record { at = get_or at now; current_turn = current_turn }))
  payload_called now (Call.task_workdir_changed t files_changed commits branch) = ok (
      Payload.task_workdir_changed
        (record { files_changed = files_changed; commits = commits; branch = branch }))
  payload_called now (Call.harness_turn_started t turn_number model prompt_tokens) = ok (
      Payload.harness_turn_started
        (record { turn_number = turn_number; model = model; prompt_tokens = prompt_tokens }))
  payload_called now (Call.harness_tool_call t turn_number tool_name tool_args_summary) = ok (
      Payload.harness_tool_call (record {
        turn_number = turn_number;
        tool_name = tool_name;
        tool_args_summary = tool_args_summary;
      }))
  payload_called now (Call.harness_turn_completed t turn_number completion_tokens duration_ms) =
      ok (
        Payload.harness_turn_completed (record {
          turn_number = turn_number;
          completion_tokens = completion_tokens;
          duration_ms = duration_ms;
        }))
  payload_called now (Call.gate_started t gate_name command) =
      ok (Payload.gate_started (record { gate_name = gate_name; command = command }))
  payload_called now (Call.gate_passed t gate_name duration_ms) =
      ok (Payload.gate_passed (record { gate_name = gate_name; duration_ms = duration_ms }))
  payload_called now (Call.gate_failed t gate_name exit_code stderr_tail) = ok (
      Payload.gate_failed
        (record { gate_name = gate_name; exit_code = exit_code; stderr_tail = stderr_tail }))
  payload_called now (Call.judge_started t judge_agent_id) =
      ok (Payload.judge_started (record { judge_agent_id = judge_agent_id }))
  payload_called now (Call.judge_review_submitted t per_ac_verdicts) =
      ok (Payload.judge_review_submitted (record { per_ac_verdicts = per_ac_verdicts }))
  payload_called now (Call.judge_decision t decision notes) = decision_data decision notes
  payload_called now
        (Call.anomaly_stuck_detected t last_activity_at t_m_seconds last_seen_event_type) =
      ok (
        Payload.anomaly_stuck_detected (record {
          last_activity_at = last_activity_at;
          t_m_seconds = t_m_seconds;
          last_seen_event_type = last_seen_event_type;
        }))

  -- The payload is of the method's class, and a call without one misjudges.
  pub payload_called-class_of :
      (now : P.Datetime) (call : Call P)
      → misjudges call ≡ false
      → (p : Payload P) × (payload_called now call ≡ ok p) × (class_of p ≡ class_called call)
  unfolding payload_called class_of
  payload_called-class_of now (judge_decision t d n) h = elim (Option-cases (decision_of d)) [
    | inl e ↦ absurd (cc (rw e at h))
    | inr (v, e) ↦ (Payload.judge_decision (record { decision = v; notes = n }), rw e refl, refl)
  ]
  payload_called-class_of now call h = (_, refl, refl)

  pub payload_called-refused :
      (now : P.Datetime) (call : Call P)
      → misjudges call ≡ true
      → payload_called now call ≡ raise validation_error
  unfolding payload_called
  payload_called-refused now (judge_decision t d n) h = elim (Option-cases (decision_of d)) [
    | inl e ↦ rw e refl
    | inr (v, e) ↦ absurd (cc (rw e at h))
  ]
  payload_called-refused now call h = absurd (cc h)

  -- Every method makes its payload and calls the constructor.
  pub make_lem :
      (now : P.Datetime) (call : Call P) (c : Common P)
      → make P now call c ≡ (
          payload_called now call >>= λ p.
          create P now c.workgraph_id (task_called call) c.source c.timestamp p c.base)
  unfolding make payload_called
  make_lem now (judge_decision t d n) c = refl
  make_lem now call c = refl
