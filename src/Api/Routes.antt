-- ===== src/Api/Routes.antt =====
-- The GET routes of src/vfobs/api/reads.py and api/cost.py with what they depend on: the bearer token,
-- `build_event_query` and `get_read_principal`.
pub mod Refused
pub mod Guarded
use vfobs.Prelude.{ℕ, String, Option, none, some, List, [], ◌∷◌}
use vfobs.Prelude.Int.{ℤ}
use vfobs.Prelude.Result.{Result, ok, raise, Exception, ◌>>=◌}
use vfobs.Events.Platform.{Platform}
use vfobs.Adapters.Dto.{WorkgraphMetadata, TaskMetadata}
use vfobs.Adapters.Vtf as vtf
use vfobs.Repository.Interface.{EventRepository}
use vfobs.Api.Dto.{
  WorkgraphReadResponse, TaskReadResponse, TaskEventsResponse, EventsFilterResponse,
}
use vfobs.Api.Reads.{
  EventQuery, Lookup, token_of, get_workgraph, get_task, get_task_events, list_events,
}
use vfobs.Api.Query.{Pydantic, build_event_query}
use vfobs.Api.Cost.{WorkgraphCostResponse, AgentCostResponse, workgraph_cost, agent_cost}
use vfobs.Api.ReadAuth.{Runtime, ReadAuth, get_read_principal}
use vfobs.Api.ReadAuth.Answered.{ClientCall, http_at, call_of}

-- A route with its arguments; the query of `list_events` is text before `build_event_query`, and an
-- `EventQuery` after.
pub data Route (Query : Type 0) : Type 0 where
  workgraph task : String → Route Query
  events_of_task : String → Option ℤ → ℤ → Route Query
  filtered : Query → Route Query
  cost_of_workgraph cost_of_agent : String → Route Query

pub data Answer (P : Platform) : Type 0 where
  a_workgraph : WorkgraphReadResponse P → Answer P
  a_task : TaskReadResponse P → Answer P
  a_page : TaskEventsResponse P → Answer P
  an_excerpt : EventsFilterResponse P → Answer P
  a_workgraph_cost : WorkgraphCostResponse P → Answer P
  an_agent_cost : AgentCostResponse P → Answer P

-- What comes before `get_read_principal` among the dependencies: `build_event_query`.
unfoldable pub prepare :
    Pydantic → Route (List (String × String)) → Result Exception (Route EventQuery)
prepare Y (workgraph id) = ok (workgraph id)
prepare Y (task id) = ok (task id)
prepare Y (events_of_task id from_id limit) = ok (events_of_task id from_id limit)
prepare Y (filtered query_params) = do q ← build_event_query Y query_params; ok (filtered q)
prepare Y (cost_of_workgraph id) = ok (cost_of_workgraph id)
prepare Y (cost_of_agent id) = ok (cost_of_agent id)

module _ (T : Runtime) (h : vtf.Http) (base : String) {P : Platform} (R : EventRepository P) where
  -- A request, with its token and its time, and with the GETs as vtaskforge answers them at that time.
  pub record ReadRequest : Type 0 where
    pub route : Route (List (String × String))
    pub call : ClientCall T h base

  -- The lookups of `app.state.vtf_client`, which has the base URL of its settings.
  abbrev workgraph_lookup : ClientCall T h base → Option String → Option (Lookup WorkgraphMetadata)
  workgraph_lookup c none = none
  workgraph_lookup c (some client) =
      some (λ id token. vtf.get_workgraph (http_at T h base c) client id token)

  abbrev task_lookup : ClientCall T h base → Option String → Option (Lookup TaskMetadata)
  task_lookup c none = none
  task_lookup c (some client) = some (λ id token. vtf.get_task (http_at T h base c) client id token)

  -- The endpoint of a route.
  unfoldable pub endpoint :
      Option String → R.State → ClientCall T h base → Route EventQuery → Result Exception (Answer P)
  endpoint client s c (workgraph id) = do
    r ← get_workgraph R (workgraph_lookup c client) s id (token_of c.token)
    ok (a_workgraph r)
  endpoint client s c (task id) = do
    r ← get_task R (task_lookup c client) s id (token_of c.token)
    ok (a_task r)
  endpoint client s c (events_of_task id from_id limit) =
      ok (a_page (get_task_events R s id from_id limit))
  endpoint client s c (filtered q) = ok (an_excerpt (list_events R s q))
  endpoint client s c (cost_of_workgraph id) = do r ← workgraph_cost R id s; ok (a_workgraph_cost r)
  endpoint client s c (cost_of_agent id) = do r ← agent_cost R id s; ok (an_agent_cost r)

  -- `principal: Principal = Depends(get_read_principal)`, and the endpoint after it.
  unfoldable pub guarded :
      Option String
      → R.State
      → ClientCall T h base
      → Route EventQuery
      → Option (ReadAuth T)
      → Result Exception (Answer P) × Option (ReadAuth T)
  unfolding endpoint
  guarded client s c route auth =
      let (found, auth') = get_read_principal T auth (call_of T h base c) in
      (found >>= λ principal. endpoint client s c route, auth')

  -- A request and its answer, with `app.state.read_auth` before and after it.
  unfoldable pub serve_read :
      Pydantic
      → Option String
      → R.State
      → ReadRequest
      → Option (ReadAuth T)
      → Result Exception (Answer P) × Option (ReadAuth T)
  unfolding guarded
  serve_read Y client s r auth = elim (prepare Y r.route) [
    | raise e ↦ (raise e, auth)
    | ok route ↦ guarded client s r.call route auth
  ]

  -- `app.state.read_auth` after requests, the latest of them first, each with the repository's state at
  -- its time.
  unfoldable pub auth_after :
      Pydantic
      → Option String
      → Option (ReadAuth T)
      → List (R.State × ReadRequest)
      → Option (ReadAuth T)
  unfolding serve_read
  auth_after Y client auth [] = auth
  auth_after Y client auth ((s, r) ∷ older) =
      (serve_read Y client s r (auth_after Y client auth older)).1
