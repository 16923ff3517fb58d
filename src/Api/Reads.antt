-- ===== src/Api/Reads.antt =====
-- The resource endpoints of src/vfobs/api/reads.py, and `EventQuery` of api/query.py.
pub mod Paging
pub mod Resources
use mathlib.Core.Option
use vfobs.Prelude.{
  ℕ, ◌+◌, ◌≤◌, ◌==◌, String, str_eq, ◌≡◌, Bool, true, false, not, ◌&&◌, Option, none, some, List,
  [], ◌∷◌, ◌++◌, length, last?, if◌then◌else◌,
}
use vfobs.Prelude.Int.{ℤ, pos, negsuc, min_ℤ, max_ℤ, ltb_ℤ}
use vfobs.Prelude.Result.{Result, ok, raise, Exception, http_exception}
use vfobs.Events.Platform.{Platform}
use vfobs.Adapters.Dto.{WorkgraphMetadata, TaskMetadata}
use vfobs.Repository.Model.{StoredEvent, EventFilter}
use vfobs.Repository.Interface.{EventRepository}
use vfobs.Api.Dto.{
  WorkgraphReadResponse, TaskReadResponse, TaskEventsResponse, EventsFilterResponse, FilterValue,
  text, number, build_part, workgraph_part, task_part,
}

-- The fields of `EventQuery`, after validation.
pub record EventQuery : Type 0 where
  pub workgraph_id : Option String
  pub task_id : Option String
  pub agent_id : Option String
  pub type_ : Option String
  pub type_namespace : Option String
  pub org_id : String
  pub from_id : Option ℤ
  pub limit : ℤ

-- A lookup of metadata by id and token; None where vtaskforge gave none.
abbrev pub Lookup : Type 0 → Type 0
Lookup A = String → String → Option A

-- `_token`: the credentials of the request, which the read authentication has verified.
unfoldable pub token_of : Option String → String
token_of none = ""
token_of (some credentials) = credentials

-- `await vtf.get_…(id, token) if vtf else None`
abbrev pub ask : {A : Type 0} → Option (Lookup A) → String → String → Option A
ask none id token = none
ask (some get) id token = get id token

abbrev pub is_none : {A : Type 0} → Option A → Bool
is_none none = true
is_none (some a) = false

-- The keyword arguments that `list_events` passes on: `org_id` is always given.
abbrev pub filter_of : EventQuery → EventFilter
filter_of q = record {
  workgraph_id = q.workgraph_id;
  task_id = q.task_id;
  agent_id = q.agent_id;
  type_ = q.type_;
  type_namespace = q.type_namespace;
  org_id = some q.org_id;
}

-- One field of `model_dump(exclude_none=True, exclude_defaults=True, by_alias=True)`.
abbrev dump_text : String → Option String → List (String × FilterValue)
dump_text name none = []
dump_text name (some s) = (name, text s) ∷ []

abbrev dump_int : String → Option ℤ → List (String × FilterValue)
dump_int name none = []
dump_int name (some i) = (name, number i) ∷ []

-- The default `org_id` and `limit` of `EventQuery`.
abbrev pub default_org_id : String
default_org_id = "viloforge"

abbrev pub default_limit : ℤ
default_limit = pos 100

abbrev equal_int : ℤ → ℤ → Bool
equal_int a b = not (ltb_ℤ a b) && not (ltb_ℤ b a)

unfoldable pub filter_applied : EventQuery → List (String × FilterValue)
filter_applied q =
    dump_text "workgraph_id" q.workgraph_id
    ++ (dump_text "task_id" q.task_id
        ++ (dump_text "agent_id" q.agent_id
            ++ (dump_text "type" q.type_
                ++ (dump_text "type_namespace" q.type_namespace
                    ++ (dump_text "org_id"
                          (if str_eq q.org_id default_org_id then none else some q.org_id)
                        ++ (dump_int "from_id" q.from_id
                            ++ dump_int "limit" (
                                if equal_int q.limit default_limit
                                then none
                                else some q.limit)))))))

-- `page[-1].id + 1 if len(page) == requested and page else None`
unfoldable pub next_cursor : {P : Platform} → ℤ → List (StoredEvent P) → Option ℤ
next_cursor requested page =
    if equal_int (pos (length page)) requested
    then Option.map (λ e. pos (e.id + 1)) (last? page)
    else none

module _ {P : Platform} (R : EventRepository P) where
  unfoldable pub get_workgraph :
      Option (Lookup WorkgraphMetadata)
      → R.State
      → String
      → String
      → Result Exception (WorkgraphReadResponse P)
  get_workgraph vtf s workgraph_id token =
      let vtf_meta : Option WorkgraphMetadata = ask vtf workgraph_id token in
      let count : ℕ = R.count_by_workgraph s workgraph_id in
      if is_none vtf_meta && count == 0
      then raise (http_exception 404 "workgraph not found")
      else ok (record {
        v = pos 1;
        workgraph_id = workgraph_id;
        vtf = Option.map workgraph_part vtf_meta;
        vfobs_part = build_part count (R.find_last_by_workgraph s workgraph_id);
      })

  unfoldable pub get_task :
      Option (Lookup TaskMetadata)
      → R.State
      → String
      → String
      → Result Exception (TaskReadResponse P)
  get_task vtf s task_id token =
      let vtf_meta : Option TaskMetadata = ask vtf task_id token in
      let count : ℕ = R.count_by_task s task_id in
      if is_none vtf_meta && count == 0
      then raise (http_exception 404 "task not found")
      else ok (record {
        v = pos 1;
        task_id = task_id;
        vtf = Option.map task_part vtf_meta;
        vfobs_part = build_part count (R.find_last_by_task s task_id);
      })

  unfoldable pub get_task_events : R.State → String → Option ℤ → ℤ → TaskEventsResponse P
  get_task_events s task_id from_id limit =
      let page = R.find_by_task s task_id from_id limit in
      let requested = max_ℤ (pos 1) (min_ℤ limit (pos 1000)) in
      record {
        v = pos 1;
        task_id = task_id;
        events = page;
        next_from_id = next_cursor requested page;
      }

  unfoldable pub list_events : R.State → EventQuery → EventsFilterResponse P
  list_events s q =
      let page = R.find_filtered s (filter_of q) q.from_id q.limit in
      record {
        v = pos 1;
        events = page;
        next_from_id = next_cursor q.limit page;
        filter_applied = filter_applied q;
      }
