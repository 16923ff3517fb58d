-- ===== src/Events/Factory/HarnessEvents.antt =====
-- The methods of `EventFactory` for the events harness.*.
use vfobs.Prelude.{String, Option, some}
use vfobs.Prelude.Int.{ℤ}
use vfobs.Prelude.Result.{Result, Exception}
use vfobs.Events.Platform.{Platform}
use vfobs.Events.Namespaces.{Payload}
use vfobs.Events.Base.{Event}
use vfobs.Events.Factory.{BaseKwargs, create}

module _ (P : Platform) (now : P.Datetime) where
  unfoldable pub harness_turn_started :
      String
      → String
      → String
      → ℤ
      → String
      → Option ℤ
      → Option P.Datetime
      → BaseKwargs
      → Result Exception (Event P)
  unfolding create
  harness_turn_started workgraph_id task_id source turn_number model prompt_tokens timestamp base =
      create P now workgraph_id (some task_id) source timestamp
        (Payload.harness_turn_started
          (record { turn_number = turn_number; model = model; prompt_tokens = prompt_tokens }))
        base

  unfoldable pub harness_tool_call :
      String
      → String
      → String
      → ℤ
      → String
      → Option String
      → Option P.Datetime
      → BaseKwargs
      → Result Exception (Event P)
  unfolding create
  harness_tool_call workgraph_id task_id source turn_number tool_name tool_args_summary timestamp
        base =
      create P now workgraph_id (some task_id) source timestamp
        (Payload.harness_tool_call (record {
          turn_number = turn_number;
          tool_name = tool_name;
          tool_args_summary = tool_args_summary;
        }))
        base

  unfoldable pub harness_turn_completed :
      String
      → String
      → String
      → ℤ
      → Option ℤ
      → Option ℤ
      → Option P.Datetime
      → BaseKwargs
      → Result Exception (Event P)
  unfolding create
  harness_turn_completed workgraph_id task_id source turn_number completion_tokens duration_ms
        timestamp base =
      create P now workgraph_id (some task_id) source timestamp
        (Payload.harness_turn_completed (record {
          turn_number = turn_number;
          completion_tokens = completion_tokens;
          duration_ms = duration_ms;
        }))
        base
