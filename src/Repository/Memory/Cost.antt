-- ===== src/Repository/Memory/Cost.antt =====
-- `cost_summary` of `InMemoryEventRepository` in src/vfobs/repositories/event_repository.py.
pub mod Latest
pub mod Totals
use vfobs.Prelude.{
  ℕ, String, str_eq, Bool, true, not, ◌||◌, Option, none, some, List, [], ◌∷◌, ltb, length, is_some,
  if◌then◌else◌,
}
use vfobs.Prelude.Dict
use vfobs.Prelude.Dict.{string_key}
use vfobs.Prelude.Int.{ℤ, pos, ◌+ℤ◌}
use vfobs.Prelude.Result.{Result, ok, raise, Exception, value_error}
use vfobs.Events.Platform.{Platform}
use vfobs.Events.Base.{Event, event_type}
use vfobs.Events.Namespaces.{ExecutionSummary, execution_summary_of}
use vfobs.Repository.Model.{CostSummary, add_int, add_cost}
use vfobs.Repository.Memory.{Repo, differs, opt_differs}

-- `latest: dict[str, tuple[int, Any]]`
abbrev pub Latest : Platform → Type 0
Latest P = List (String × (ℕ × ExecutionSummary P))

module _ {P : Platform} where
  -- `cur is None or eid > cur[0]`
  abbrev pub is_newer : ℕ → Option (ℕ × ExecutionSummary P) → Bool
  is_newer eid none = true
  is_newer eid (some cur) = ltb cur.0 eid

  -- The end of the loop's body, where the event has a task and an execution summary.
  unfoldable pub note_summary : ℕ → String → ExecutionSummary P → Latest P → Latest P
  note_summary eid task_id es latest =
      if is_newer eid (Dict.get task_id latest) then Dict.set task_id (eid, es) latest else latest

  unfoldable pub note_task : ℕ → Option String → Option (ExecutionSummary P) → Latest P → Latest P
  unfolding note_summary
  note_task eid none es latest = latest
  note_task eid (some task_id) none latest = latest
  note_task eid (some task_id) (some es) latest = note_summary eid task_id es latest

  -- The body of the loop over the events; each early `continue` leaves `latest` alone.
  unfoldable pub latest_step : Option String → Option String → ℕ × Event P → Latest P → Latest P
  unfolding note_task
  latest_step workgraph_id agent_id (eid, ev) latest =
      if not (str_eq (event_type ev) "task.state_changed") || not (is_some ev.task_id)
      then latest
      else if differs workgraph_id ev.workgraph_id
      then latest
      else if opt_differs agent_id ev.agent_id
      then latest
      else note_task eid ev.task_id (execution_summary_of ev.payload) latest

  unfoldable pub latest_loop :
      Option String → Option String → List (ℕ × Event P) → Latest P → Latest P
  unfolding latest_step
  latest_loop workgraph_id agent_id [] latest = latest
  latest_loop workgraph_id agent_id (x ∷ xs) latest =
      latest_loop workgraph_id agent_id xs (latest_step workgraph_id agent_id x latest)

  -- The loop over `latest.values()`, with the three totals.
  unfoldable pub totals : P.Float → ℤ → ℤ → Latest P → P.Float × ℤ × ℤ
  totals cost tokens turns [] = (cost, tokens, turns)
  totals cost tokens turns ((task_id, (eid, es)) ∷ rest) =
      totals (add_cost P cost es.cost_usd) (add_int tokens es.total_tokens)
        (add_int turns es.num_turns) rest

  unfoldable pub summarize : Latest P → CostSummary P
  unfolding totals
  summarize latest =
      let (cost, tokens, turns) = totals P.float_zero (pos 0) (pos 0) latest in
      record {
        total_cost_usd = cost;
        total_tokens = tokens;
        total_turns = turns;
        task_count = length latest;
        sample_event_count = length latest;
      }

  -- `cost_summary`
  unfoldable pub cost_summary :
      Repo P → Option String → Option String → Result Exception (CostSummary P)
  unfolding latest_loop summarize
  cost_summary r none none = raise value_error
  cost_summary r (some w) (some a) = raise value_error
  cost_summary r workgraph_id agent_id =
      ok (summarize (latest_loop workgraph_id agent_id r.events []))
