-- ===== src/Events/Factory/GateEvents.antt =====
-- The methods of `EventFactory` for the events gate.*, judge.* and anomaly.*.
use vfobs.Prelude.{String, Option, some, List}
use vfobs.Prelude.Int.{ℤ}
use vfobs.Prelude.Result.{Result, Exception, ◌>>=◌}
use vfobs.Events.Platform.{Platform}
use vfobs.Events.Namespaces.{Payload}
use vfobs.Events.Base.{Event}
use vfobs.Events.Factory.{BaseKwargs, create, decision_data}

module _ (P : Platform) (now : P.Datetime) where
  unfoldable pub gate_started :
      String
      → String
      → String
      → String
      → String
      → Option P.Datetime
      → BaseKwargs
      → Result Exception (Event P)
  unfolding create
  gate_started workgraph_id task_id source gate_name command timestamp base =
      create P now workgraph_id (some task_id) source timestamp
        (Payload.gate_started (record { gate_name = gate_name; command = command })) base

  unfoldable pub gate_passed :
      String
      → String
      → String
      → String
      → Option ℤ
      → Option P.Datetime
      → BaseKwargs
      → Result Exception (Event P)
  unfolding create
  gate_passed workgraph_id task_id source gate_name duration_ms timestamp base =
      create P now workgraph_id (some task_id) source timestamp
        (Payload.gate_passed (record { gate_name = gate_name; duration_ms = duration_ms })) base

  unfoldable pub gate_failed :
      String
      → String
      → String
      → String
      → ℤ
      → Option String
      → Option P.Datetime
      → BaseKwargs
      → Result Exception (Event P)
  unfolding create
  gate_failed workgraph_id task_id source gate_name exit_code stderr_tail timestamp base =
      create P now workgraph_id (some task_id) source timestamp
        (Payload.gate_failed
          (record { gate_name = gate_name; exit_code = exit_code; stderr_tail = stderr_tail }))
        base

  unfoldable pub judge_started :
      String
      → String
      → String
      → String
      → Option P.Datetime
      → BaseKwargs
      → Result Exception (Event P)
  unfolding create
  judge_started workgraph_id task_id source judge_agent_id timestamp base =
      create P now workgraph_id (some task_id) source timestamp
        (Payload.judge_started (record { judge_agent_id = judge_agent_id })) base

  unfoldable pub judge_review_submitted :
      String
      → String
      → String
      → List (String × String)
      → Option P.Datetime
      → BaseKwargs
      → Result Exception (Event P)
  unfolding create
  judge_review_submitted workgraph_id task_id source per_ac_verdicts timestamp base =
      create P now workgraph_id (some task_id) source timestamp
        (Payload.judge_review_submitted (record { per_ac_verdicts = per_ac_verdicts })) base

  unfoldable pub judge_decision :
      String
      → String
      → String
      → String
      → Option String
      → Option P.Datetime
      → BaseKwargs
      → Result Exception (Event P)
  unfolding create decision_data
  judge_decision workgraph_id task_id source decision notes timestamp base = do
    payload ← decision_data decision notes
    create P now workgraph_id (some task_id) source timestamp payload base

  unfoldable pub anomaly_stuck_detected :
      String
      → String
      → String
      → P.Datetime
      → ℤ
      → Option String
      → Option P.Datetime
      → BaseKwargs
      → Result Exception (Event P)
  unfolding create
  anomaly_stuck_detected workgraph_id task_id source last_activity_at t_m_seconds
        last_seen_event_type timestamp base =
      create P now workgraph_id (some task_id) source timestamp
        (Payload.anomaly_stuck_detected (record {
          last_activity_at = last_activity_at;
          t_m_seconds = t_m_seconds;
          last_seen_event_type = last_seen_event_type;
        }))
        base
