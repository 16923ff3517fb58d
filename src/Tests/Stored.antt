-- ===== src/Tests/Stored.antt =====
-- The in-memory repository and the event models at concrete inputs.
use vfobs.Prelude.{◌≤◌, ◌≡◌, ◌↔◌, refl, none, some, [], ◌∷◌, true}
use vfobs.Prelude.Int.{pos}
use vfobs.Prelude.Result.{ok}
use vfobs.Events.Classes.{
  task_claimed, registry_get, type_has_known_namespace, registry-type_value, type_value,
}
use vfobs.Events.Platform.{StripLaws}
use vfobs.Events.Base.{Kwargs, new_event, fields_of, kwargs_of, IsValid, new_event-IsValid}
use vfobs.Repository.Model.{clamp_limit, clamp_limit_bounds, EventFilter}
use vfobs.Repository.Log.{stored, of_task}
use vfobs.Repository.Log.Cost.{IsRollup}
use vfobs.Repository.Log.Filter.{Satisfies}
use vfobs.Repository.Interface.{Contract}
use vfobs.Repository.Memory.{
  store, get_by_id, scan, find_last_by_task, count_by_task, find_last_by_workgraph,
  count_by_workgraph, init, filter_pred,
}
use vfobs.Repository.Memory.Sorted.{IsWf}
use vfobs.Repository.Memory.Store.{get_by_id-store}
use vfobs.Repository.Memory.Scan.{scan_lem}
use vfobs.Repository.Memory.Filter.{filter_pred_iff}
use vfobs.Repository.Memory.Last.{last_and_count}
use vfobs.Repository.Memory.History.{store_all, store_all-init}
use vfobs.Repository.Memory.Cost.{cost_summary}
use vfobs.Repository.Memory.Cost.Totals.{cost_summary_lem}
use vfobs.Repository.Memory.Contract.{memory_repository, memory_view, memory_repository-Contract}
use vfobs.Tests.Data.{platform, claim, done, repo, repo-IsWf, claim_data}

memory_repository-Contract_example : Contract (memory_repository platform) (memory_view platform)
memory_repository-Contract_example = memory_repository-Contract platform

stored_found :
    IsWf (store repo claim).0
    × (get_by_id repo (store repo claim).1 ≡ none)
    × (get_by_id (store repo claim).0 3 ≡ some claim)
unfolding store
stored_found = get_by_id-store repo claim 3 repo-IsWf

stored_in_order :
    ((store_all init (claim ∷ done ∷ [])).0.events ≡ (1, claim) ∷ (2, done) ∷ [])
    × ((store_all init (claim ∷ done ∷ [])).1 ≡ 1 ∷ 2 ∷ [])
stored_in_order = store_all-init (claim ∷ done ∷ [])

-- A page of one event behind a cursor.
scanned : scan repo (of_task "t1") (some (pos 2)) (pos 1) ≡ stored (2, done) ∷ []
unfolding clamp_limit
scanned = scan_lem repo (of_task "t1") (some (pos 2)) (pos 1) repo-IsWf

last_counted :
    (find_last_by_task repo "t1" ≡ some (stored (2, done)))
    × (count_by_task repo "t1" ≡ 2)
    × (find_last_by_workgraph repo "t1" ≡ none)
    × (count_by_workgraph repo "t1" ≡ 0)
last_counted = last_and_count repo "t1" repo-IsWf

cost_summary_lem_example :
    IsRollup (some "w1") none repo.events (cost_summary repo (some "w1") none)
cost_summary_lem_example = cost_summary_lem repo (some "w1") none repo-IsWf refl

clamped : (clamp_limit (pos 5000) ≡ pos 1000) × (1 ≤ 1000) × (1000 ≤ 1000)
unfolding clamp_limit
clamped = clamp_limit_bounds (pos 5000)

claimed_registered :
    (registry_get (type_value task_claimed) ≡ some task_claimed)
    × (type_has_known_namespace (type_value task_claimed) ≡ ok (type_value task_claimed))
claimed_registered = registry-type_value task_claimed

abbrev given : Kwargs platform
given = record {
  v = none;
  workgraph_id = "w1";
  task_id = some "t1";
  agent_id = some "a1";
  trace_id = none;
  source = "controller";
  timestamp = 10;
  classification = none;
  org_id = none;
  cluster_id = none;
  payload = claim_data;
}

platform-laws : StripLaws platform
platform-laws = record { strip_idem = λ s. refl; strip_org = refl; strip_cluster = refl }

claim_constructed : IsValid claim × (new_event platform (kwargs_of claim) ≡ ok claim)
unfolding new_event fields_of
claim_constructed = new_event-IsValid platform platform-laws given claim refl

abbrev by_agent : EventFilter
by_agent = record {
  workgraph_id = none;
  task_id = none;
  agent_id = some "a1";
  type_ = none;
  type_namespace = some "task";
  org_id = none;
}

agent_filtered : (filter_pred by_agent claim ≡ true) ↔ Satisfies by_agent claim
agent_filtered = filter_pred_iff by_agent claim
