-- ===== src/Events/Factory/WorkgraphEvents.antt =====
-- The methods of `EventFactory` for the events workgraph.*.
use vfobs.Prelude.{String, Option, List}
use vfobs.Prelude.Int.{ℤ}
use vfobs.Prelude.Result.{Result, Exception}
use vfobs.Events.Platform.{Platform}
use vfobs.Events.Namespaces.{Payload}
use vfobs.Events.Base.{Event}
use vfobs.Events.Factory.{BaseKwargs, create}

module _ (P : Platform) (now : P.Datetime) where
  unfoldable pub workgraph_created :
      String
      → Option String
      → String
      → String
      → String
      → List String
      → Option P.Datetime
      → BaseKwargs
      → Result Exception (Event P)
  unfolding create
  workgraph_created workgraph_id task_id source created_by kind target_repos timestamp base =
      create P now workgraph_id task_id source timestamp
        (Payload.workgraph_created
          (record { created_by = created_by; kind = kind; target_repos = target_repos }))
        base

  unfoldable pub workgraph_state_changed :
      String
      → Option String
      → String
      → String
      → String
      → Option P.Datetime
      → BaseKwargs
      → Result Exception (Event P)
  unfolding create
  workgraph_state_changed workgraph_id task_id source from_status to_status timestamp base =
      create P now workgraph_id task_id source timestamp
        (Payload.workgraph_state_changed
          (record { from_status = from_status; to_status = to_status }))
        base

  unfoldable pub workgraph_completed :
      String
      → Option String
      → String
      → String
      → ℤ
      → Option P.Datetime
      → BaseKwargs
      → Result Exception (Event P)
  unfolding create
  workgraph_completed workgraph_id task_id source terminal_status task_count timestamp base =
      create P now workgraph_id task_id source timestamp
        (Payload.workgraph_completed
          (record { terminal_status = terminal_status; task_count = task_count }))
        base
