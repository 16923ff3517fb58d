-- ===== src/Tests/Served.antt =====
-- The endpoints and the client that pages through them, at concrete inputs.
use vfobs.Prelude.{
  ℕ, ◌≤◌, ◌≡◌, ◌≢◌, ◌⊎◌, refl, arith, String, Option, none, some, [], ◌∷◌, ◌++◌, length,
}
use vfobs.Prelude.Int.{pos}
use vfobs.Prelude.Result.{ok, raise, http_exception}
use vfobs.Adapters.Dto.{TaskMetadata}
use vfobs.Events.Base.{event_type}
use vfobs.Repository.Model.{clamp_limit}
use vfobs.Repository.Log.{stored, of_task, hits}
use vfobs.Repository.Log.Cost.{IsRollup}
use vfobs.Api.Dto.{build_part}
use vfobs.Api.Reads.{EventQuery, Lookup, get_task, get_task_events, list_events}
use vfobs.Api.Reads.Paging.{meets, remaining, get_task_events_page, list_events_page}
use vfobs.Api.Reads.Resources.{get_task_presence}
use vfobs.Api.Cost.{by_workgraph, run, run_lem}
use vfobs.Api.Events.{post_events, post_events_lem}
use vfobs.Sdk.ReadClient.{StoredEventView, view, task_events}
use vfobs.Sdk.ReadClient.Complete.{Wire, served, task_events_complete}
use vfobs.Repository.Memory.Sorted.{IsWf}
use vfobs.Tests.Data.{platform, claim, done, repo, repo-IsWf, R, contract}

abbrev wire : Wire platform String
wire = record { iso = λ at. "2026-01-01T00:00:00Z"; dump = λ d. none }

abbrev seen : ℕ → String → StoredEventView String
seen eid type_ = record {
  id = eid;
  type_ = type_;
  timestamp = "2026-01-01T00:00:00Z";
  payload = "{}";
}

-- Pages of one event each: the second page is full too, and the third is empty.
task_events_complete_example :
    task_events "{}" 3 (served wire R repo "t1") (pos 1)
    ≡ some (ok (seen 1 "task.claimed" ∷ seen 2 "task.state_changed" ∷ []))
unfolding view event_type
task_events_complete_example =
    task_events_complete wire "{}" contract repo repo-IsWf 3 "t1" (pos 1) (omega arith)

get_task_events_page_example :
    (stored (1, claim) ∷ stored (2, done) ∷ []
      ≡ (get_task_events R repo "t1" none (pos 1)).events
        ++ remaining
            (of_task "t1")
            repo.events
            (get_task_events R repo "t1" none (pos 1)).next_from_id)
    × (length (get_task_events R repo "t1" none (pos 1)).events ≤ 1)
unfolding clamp_limit
get_task_events_page_example = get_task_events_page contract repo "t1" none (pos 1) repo-IsWf

abbrev query : EventQuery
query = record {
  workgraph_id = none;
  task_id = none;
  agent_id = some "a1";
  type_ = none;
  type_namespace = none;
  org_id = "viloforge";
  from_id = some (pos 2);
  limit = pos 1;
}

list_events_page_example :
    (hits (meets query) (some (pos 2)) repo.events
      ≡ (list_events R repo query).events
        ++ remaining (meets query) repo.events (list_events R repo query).next_from_id)
    × (length (list_events R repo query).events ≤ 1)
list_events_page_example =
    list_events_page contract repo query 1 repo-IsWf refl (omega arith) (omega arith)

abbrev nothing : Option TaskMetadata
nothing = none

abbrev no_metadata : Option (Lookup TaskMetadata)
no_metadata = some (λ id token. none)

get_task_presence_example :
    ((nothing ≡ none)
      × (hits (of_task "t9") none repo.events ≡ [])
      × (get_task R no_metadata repo "t9" "token" ≡ raise (http_exception 404 "task not found")))
    ⊎ (((nothing ≢ none) ⊎ (hits (of_task "t9") none repo.events ≢ []))
        × (get_task R no_metadata repo "t9" "token"
            ≡ ok
                (record { v = pos 1; task_id = "t9"; vtf = none; vfobs_part = build_part 0 none })))
get_task_presence_example = get_task_presence contract no_metadata repo "t9" "token" repo-IsWf

run_lem_example :
    ((stored (1, claim) ∷ stored (2, done) ∷ [] ≡ [])
      × (run R (by_workgraph "w1") repo ≡ raise (http_exception 404 "no events for this scope")))
    ⊎ ((stored (1, claim) ∷ stored (2, done) ∷ [] ≢ [])
        × IsRollup (some "w1") none repo.events (run R (by_workgraph "w1") repo))
run_lem_example = run_lem contract (by_workgraph "w1") repo repo-IsWf

post_events_lem_example :
    (eid : ℕ) × ((post_events R repo "controller" claim).0 ≡ ok eid)
    × ((post_events R repo "controller" claim).1.events ≡ repo.events ++ (eid, claim) ∷ [])
    × IsWf (post_events R repo "controller" claim).1
    × (R.get_by_id repo eid ≡ none)
    × (R.get_by_id (post_events R repo "controller" claim).1 eid ≡ some claim)
post_events_lem_example = post_events_lem contract repo "controller" claim repo-IsWf
