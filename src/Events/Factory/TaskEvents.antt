-- ===== src/Events/Factory/TaskEvents.antt =====
-- The methods of `EventFactory` for the events task.*.
use vfobs.Prelude.{String, Option, some, get_or}
use vfobs.Prelude.Int.{ℤ}
use vfobs.Prelude.Result.{Result, Exception}
use vfobs.Events.Platform.{Platform}
use vfobs.Events.Namespaces.{Payload, ExecutionSummary}
use vfobs.Events.Base.{Event}
use vfobs.Events.Factory.{BaseKwargs, create}

module _ (P : Platform) (now : P.Datetime) where
  unfoldable pub task_claimed :
      String
      → String
      → String
      → String
      → Option P.Datetime
      → BaseKwargs
      → Result Exception (Event P)
  unfolding create
  task_claimed workgraph_id task_id source claimed_by_agent_id timestamp base =
      create P now workgraph_id (some task_id) source timestamp
        (Payload.task_claimed (record { claimed_by_agent_id = claimed_by_agent_id })) base

  unfoldable pub task_state_changed :
      String
      → String
      → String
      → String
      → String
      → Option (ExecutionSummary P)
      → Option P.Datetime
      → BaseKwargs
      → Result Exception (Event P)
  unfolding create
  task_state_changed workgraph_id task_id source from_status to_status execution_summary timestamp
        base =
      create P now workgraph_id (some task_id) source timestamp
        (Payload.task_state_changed (record {
          from_status = from_status;
          to_status = to_status;
          execution_summary = execution_summary;
        }))
        base

  unfoldable pub task_heartbeat :
      String
      → String
      → String
      → Option P.Datetime
      → Option ℤ
      → Option P.Datetime
      → BaseKwargs
      → Result Exception (Event P)
  unfolding create
  task_heartbeat workgraph_id task_id source at current_turn timestamp base =
      create P now workgraph_id (some task_id) source timestamp
        (Payload.task_heartbeat (record { at = get_or at now; current_turn = current_turn })) base

  unfoldable pub task_workdir_changed :
      String
      → String
      → String
      → ℤ
      → ℤ
      → Option String
      → Option P.Datetime
      → BaseKwargs
      → Result Exception (Event P)
  unfolding create
  task_workdir_changed workgraph_id task_id source files_changed commits branch timestamp base =
      create P now workgraph_id (some task_id) source timestamp
        (Payload.task_workdir_changed
          (record { files_changed = files_changed; commits = commits; branch = branch }))
        base
