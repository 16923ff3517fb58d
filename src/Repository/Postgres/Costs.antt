-- ===== src/Repository/Postgres/Costs.antt =====
-- `cost_summary` of `PostgresEventRepository`: the choice of the scope, its one query, and what such a
-- query means.
pub mod Latest
pub mod Rollup
use Prim.Native.String.{◌++◌ as str_append}
use mathlib.Core.Option
use vfobs.Prelude.{
  ℕ, String, str_eq, Bool, true, ◌&&◌, ◌≡◌, Option, none, some, List, [], ◌∷◌, map, length, opt_eq,
  if◌then◌else◌,
}
use vfobs.Prelude.Int.{ℤ, pos}
use vfobs.Prelude.Result.{Result, ok, raise, Exception, value_error}
use vfobs.Events.Platform.{Platform}
use vfobs.Events.Namespaces.{Payload, ExecutionSummary, execution_summary_of}
use vfobs.Repository.Model.{CostSummary, add_int}
use vfobs.Repository.Log.Cost.{member, push}
use vfobs.Repository.Postgres.Sql.{
  RawData, Row, Params, text, Clause, equals, render, holds, all_bound, takes_params, Column,
  order_by_id, Database, DatabaseLaws,
}
use vfobs.Repository.Postgres.Rows.{Codec, json_of}

-- The query: its conditions on the scope and the type, the member of `data` that is `es`, and the
-- members of `es` that are summed.
pub record RollupQuery : Type 0 where
  pub scope : Clause
  pub event_type : String
  pub summary_key : String
  pub cost_key : String
  pub tokens_key : String
  pub turns_key : String

unfoldable pub rollup_query : Column → RollupQuery
rollup_query col = record {
  scope = equals col "scope";
  event_type = "task.state_changed";
  summary_key = "execution_summary";
  cost_key = "cost_usd";
  tokens_key = "total_tokens";
  turns_key = "num_turns";
}

abbrev join : List String → String
join [] = ""
join (s ∷ l) = str_append s (join l)

-- Its text, but for the lengths of its white space.
unfoldable pub rollup_text : RollupQuery → String
rollup_text q = join (
    "WITH latest AS ( SELECT DISTINCT ON (task_id) task_id, data->'"
    ∷ q.summary_key
    ∷ "' AS es FROM vfobs.events WHERE type = '"
    ∷ q.event_type
    ∷ "' AND task_id IS NOT NULL AND data ? '"
    ∷ q.summary_key
    ∷ "' AND data->'"
    ∷ q.summary_key
    ∷ "' IS NOT NULL AND data->'"
    ∷ q.summary_key
    ∷ "' != 'null'::jsonb AND "
    ∷ render q.scope
    ∷ " ORDER BY task_id, id DESC ) SELECT COALESCE(SUM((es->>'"
    ∷ q.cost_key
    ∷ "')::numeric), 0)::float AS total_cost_usd, COALESCE(SUM((es->>'"
    ∷ q.tokens_key
    ∷ "')::int), 0) AS total_tokens, COALESCE(SUM((es->>'"
    ∷ q.turns_key
    ∷ "')::int), 0) AS total_turns, COUNT(*) AS task_count, COUNT(*) AS sample_event_count FROM latest"
    ∷ [])

-- What the query takes from PostgreSQL: a member of `data` that is there and not null; the values that
-- `->>` and a cast to int or to numeric give for a key of it; COALESCE(SUM(…::numeric), 0)::float; the
-- range of the type int; and the row of a query.
pub record CostDatabase {P : Platform} {Json : Type 0} (D : Database P Json) : Type 1 where
  pub Object : Type 0
  pub member_at : String → RawData Json → Option Object
  pub int_at : String → Object → Option ℤ
  pub numeric_at : String → Object → Option P.Float
  pub sum_cost : List (Option P.Float) → P.Float
  pub in_int : ℤ → Bool
  pub cost_row : RollupQuery → Params → D.State → Result Exception (CostSummary P)

module _ {P : Platform} {Json : Type 0} {D : Database P Json} (K : CostDatabase D) where
  -- `cost_summary`
  unfoldable pub cost_summary :
      D.State → Option String → Option String → Result Exception (CostSummary P)
  unfolding rollup_query
  cost_summary s none none = raise value_error
  cost_summary s (some w) (some a) = raise value_error
  cost_summary s (some w) none =
      K.cost_row (rollup_query Column.workgraph_id) (("scope", text w) ∷ []) s
  cost_summary s none (some a) =
      K.cost_row (rollup_query Column.agent_id) (("scope", text a) ∷ []) s

-- A task with its summary, where both are there.
abbrev pub entry : {A : Type 0} → Option String → Option A → Option (String × A)
entry none es = none
entry (some task_id) none = none
entry (some task_id) (some es) = some (task_id, es)

-- `DISTINCT ON (task_id)` under `ORDER BY task_id, id DESC`: of the rows of a task, which stand in
-- the order of their ids, the last is kept.
unfoldable pub keep_last : {A : Type 0} → List (String × A) → List (String × A)
keep_last [] = []
keep_last ((t, es) ∷ l) =
    let rest = keep_last l in if member t (map (λ e. e.0) l) then rest else (t, es) ∷ rest

-- `COALESCE(SUM(…), 0)`, which passes over NULL.
abbrev pub sum_ints : ℤ → List (Option ℤ) → ℤ
sum_ints total [] = total
sum_ints total (x ∷ l) = sum_ints (add_int total x) l

abbrev pub opt_all : (ℤ → Bool) → Option ℤ → Bool
opt_all p none = true
opt_all p (some i) = p i

module _ {P : Platform} {Json : Type 0} {D : Database P Json} (K : CostDatabase D) where
  -- What is read of an `es`.
  abbrev pub read_with : RollupQuery → K.Object → ExecutionSummary P
  read_with q es = record {
    num_turns = K.int_at q.turns_key es;
    total_tokens = K.int_at q.tokens_key es;
    cost_usd = K.numeric_at q.cost_key es;
  }

  -- The `WHERE` of the query and its columns.
  unfoldable pub row_entry :
      RollupQuery → Params → ℕ × Row P Json → Option (String × ExecutionSummary P)
  row_entry q params x =
      if str_eq x.1.type_ q.event_type && holds params q.scope x
      then entry x.1.task_id (Option.map (read_with q) (K.member_at q.summary_key x.1.raw_data))
      else none

  unfoldable pub row_entries :
      RollupQuery → Params → List (ℕ × Row P Json) → List (String × ExecutionSummary P)
  unfolding row_entry
  row_entries q params [] = []
  row_entries q params (x ∷ xs) = push (row_entry q params x) (row_entries q params xs)

  -- No cast to int is out of range.
  abbrev pub casts : List (String × ExecutionSummary P) → Bool
  casts [] = true
  casts (e ∷ l) = opt_all K.in_int e.1.total_tokens && (opt_all K.in_int e.1.num_turns && casts l)

  -- The outer SELECT.
  unfoldable pub aggregate : List (String × ExecutionSummary P) → CostSummary P
  aggregate l = record {
    total_cost_usd = K.sum_cost (map (λ e. e.1.cost_usd) l);
    total_tokens = sum_ints (pos 0) (map (λ e. e.1.total_tokens) l);
    total_turns = sum_ints (pos 0) (map (λ e. e.1.num_turns) l);
    task_count = length l;
    sample_event_count = length l;
  }

-- Documented: the operators of JSONB read the members of a summary that was dumped, each under the
-- name of its field; and a query of this form whose parameters are bound and taken, and whose casts are
-- in range, is evaluated as it says.
pub record CostLaws {P : Platform} (C : Codec P) {D : Database P C.Json} (L : DatabaseLaws D)
    (K : CostDatabase D) : Type 0 where
  pub summary_law :
      (p : Payload P) (d : RawData C.Json)
      → C.is_finite p ≡ true
      → json_of C d ≡ some (C.dump_data p)
      → Option.map
          (λ es. record {
            num_turns = K.int_at "num_turns" es;
            total_tokens = K.int_at "total_tokens" es;
            cost_usd = K.numeric_at "cost_usd" es;
          })
          (K.member_at "execution_summary" d)
        ≡ execution_summary_of p
  pub cost_law :
      (s : D.State) (q : RollupQuery) (params : Params)
      → all_bound params (q.scope ∷ []) ≡ true
      → takes_params L.encodes params ≡ true
      → casts K (row_entries K q params (order_by_id (L.table s))) ≡ true
      → K.cost_row q params s
        ≡ ok (aggregate K (keep_last (row_entries K q params (order_by_id (L.table s)))))
