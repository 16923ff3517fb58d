-- ===== src/Repository/Memory/Contract.antt =====
-- `InMemoryEventRepository` keeps the contract of `EventRepository`.
use vfobs.Prelude.{◌≡◌, refl, Option, none, some, String, is_some}
use vfobs.Prelude.Result.{raise, value_error}
use vfobs.Events.Platform.{Platform}
use vfobs.Repository.Interface.{EventRepository, View, Contract}
use vfobs.Repository.Memory.{
  Repo, store, get_by_id, find_by_workgraph, find_by_task, find_filtered, find_last_by_workgraph,
  find_last_by_task, count_by_workgraph, count_by_task,
}
use vfobs.Repository.Memory.Cost.{cost_summary}
use vfobs.Repository.Memory.Cost.Totals.{cost_summary_lem}
use vfobs.Repository.Memory.Sorted.{IsWf}
use vfobs.Repository.Memory.Store.{store-IsWf, events-store}
use vfobs.Repository.Memory.Scan.{find_by_task_lem, find_by_workgraph_lem}
use vfobs.Repository.Memory.Filter.{find_filtered_lem}
use vfobs.Repository.Memory.Last.{last_and_count}

abbrev pub memory_repository : (P : Platform) → EventRepository P
memory_repository P = record {
  State = Repo P;
  store = store;
  get_by_id = get_by_id;
  find_by_workgraph = find_by_workgraph;
  find_by_task = find_by_task;
  find_filtered = find_filtered;
  cost_summary = cost_summary;
  find_last_by_workgraph = find_last_by_workgraph;
  find_last_by_task = find_last_by_task;
  count_by_workgraph = count_by_workgraph;
  count_by_task = count_by_task;
}

abbrev pub memory_view : (P : Platform) → View (memory_repository P)
memory_view P = record { Valid = λ r. IsWf r; log = λ r. r.events; bound = λ r. r.next_id }

module _ {P : Platform} where
  cost_summary-error :
      (r : Repo P) (w a : Option String)
      → is_some w ≡ is_some a
      → cost_summary r w a ≡ raise value_error
  unfolding cost_summary
  cost_summary-error r none none h = refl
  cost_summary-error r none (some a) h = cc
  cost_summary-error r (some w) none h = cc
  cost_summary-error r (some w) (some a) h = refl

-- The in-memory repository keeps the contract of the interface, over its well-formed states: its
-- ids ascend, it appends, and each query, count, lookup and rollup is told by the log.
pub memory_repository-Contract : (P : Platform) → Contract (memory_repository P) (memory_view P)
unfolding store get_by_id
memory_repository-Contract P = record {
  log_ascends = λ r w. w.ascends;
  store_valid = λ r e w. store-IsWf r e w;
  log-store = λ r e w. events-store r e w;
  get_by_id_law = λ r i w. refl;
  find_by_workgraph_law = find_by_workgraph_lem;
  find_by_task_law = find_by_task_lem;
  find_filtered_law = find_filtered_lem;
  cost_summary_law = cost_summary_lem;
  cost_summary_error = cost_summary-error;
  find_last_by_workgraph_law = λ r w wf. (last_and_count r w wf).2;
  find_last_by_task_law = λ r t wf. (last_and_count r t wf).0;
  count_by_workgraph_law = λ r w wf. (last_and_count r w wf).3;
  count_by_task_law = λ r t wf. (last_and_count r t wf).1;
}
