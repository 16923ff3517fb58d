-- ===== src/Repository/Postgres.antt =====
-- `PostgresEventRepository` of src/vfobs/repositories/event_repository.py, its methods.
pub mod Sql
pub mod Rows
pub mod Conditions
pub mod Wheres
pub mod Reads
pub mod Pages
pub mod Single
pub mod ById
pub mod Insert
pub mod SameAnswers
pub mod Costs
use vfobs.Prelude.{ℕ, String, ◌≡◌, Option, none, some, List, [], ◌∷◌, ◌++◌}
use vfobs.Prelude.Dict
use vfobs.Prelude.Dict.{string_key}
use vfobs.Prelude.Int.{ℤ, pos}
use vfobs.Prelude.Result.{Result, ok, raise, Exception, multiple_results_found, ◌>>=◌}
use vfobs.Events.Platform.{Platform}
use vfobs.Events.Base.{Event}
use vfobs.Repository.Model.{StoredEvent, EventFilter, clamp_limit}
use vfobs.Repository.Postgres.Sql.{
  Row, Param, text, number, Params, Clause, always, equals, at_least, namespace, Column, Database,
  Statement, insert_event, select_by_id, page, last_row, count_rows,
}
use vfobs.Repository.Postgres.Rows.{Codec, event_to_row, row_to_event, row_to_stored}

-- `clauses` and `params`, from which a query is built.
pub record Where : Type 0 where
  pub clauses : List Clause
  pub params : Params

-- `clauses.append(…)` and `params[…] = …`
abbrev pub and_clause : Clause → String → Param → Where → Where
and_clause c name value q = record {
  clauses = q.clauses ++ c ∷ [];
  params = Dict.set name value q.params;
}

-- `if x is not None:` before them.
abbrev pub and_text : Clause → String → Option String → Where → Where
and_text c name none q = q
and_text c name (some s) q = and_clause c name (text s) q

-- `_cursor`
unfoldable pub cursor : Option ℤ → Where → Where
cursor none q = q
cursor (some from_id) q = and_clause (at_least "from_id") "from_id" (number from_id) q

-- The clauses and parameters of `find_by_workgraph`, `find_by_task` and `find_filtered`.
unfoldable pub where_workgraph : String → Option ℤ → ℤ → Where
unfolding cursor
where_workgraph workgraph_id from_id limit = cursor from_id (record {
  clauses = equals Column.workgraph_id "workgraph_id" ∷ [];
  params = ("workgraph_id", text workgraph_id) ∷ ("limit", number (clamp_limit limit)) ∷ [];
})

unfoldable pub where_task : String → Option ℤ → ℤ → Where
unfolding cursor
where_task task_id from_id limit = cursor from_id (record {
  clauses = equals Column.task_id "task_id" ∷ [];
  params = ("task_id", text task_id) ∷ ("limit", number (clamp_limit limit)) ∷ [];
})

unfoldable pub where_filtered : EventFilter → Option ℤ → ℤ → Where
unfolding cursor
where_filtered f from_id limit =
    let q0 : Where = record {
      clauses = always ∷ [];
      params = ("limit", number (clamp_limit limit)) ∷ [];
    } in
    let q1 =
      and_text (equals Column.workgraph_id "workgraph_id") "workgraph_id" f.workgraph_id q0 in
    let q2 = and_text (equals Column.task_id "task_id") "task_id" f.task_id q1 in
    let q3 = and_text (equals Column.agent_id "agent_id") "agent_id" f.agent_id q2 in
    let q4 = and_text (equals Column.org_id "org_id") "org_id" f.org_id q3 in
    let q5 = and_text (equals Column.type_ "type_") "type_" f.type_ q4 in
    let q6 = and_text (namespace "type_namespace") "type_namespace" f.type_namespace q5 in
    cursor from_id q6

-- `[f(x) for x in l]`, where `f` may raise.
unfoldable pub for_each :
    {A B : Type 0} → (A → Result Exception B) → List A → Result Exception (List B)
for_each f [] = ok []
for_each f (x ∷ xs) = do y ← f x; ys ← for_each f xs; ok (y ∷ ys)

-- `one_or_none`
unfoldable pub one_or_none : {A : Type 0} → List A → Result Exception (Option A)
one_or_none [] = ok none
one_or_none (x ∷ []) = ok (some x)
one_or_none (x ∷ y ∷ l) = raise multiple_results_found

-- `f(row) if row else None`, where `f` may raise.
unfoldable pub if_row :
    {A B : Type 0} → (A → Result Exception B) → Option A → Result Exception (Option B)
if_row f none = ok none
if_row f (some row) = do y ← f row; ok (some y)

module _ {P : Platform} (C : Codec P) (D : Database P C.Json) where
  unfoldable pub store : D.State → Event P → Result Exception (D.State × ℕ)
  unfolding event_to_row
  store s event = D.insert (event_to_row C event) s

  unfoldable pub get_by_id : D.State → ℤ → Result Exception (Option (Event P))
  unfolding one_or_none if_row row_to_event
  get_by_id s event_id = do
    rows ← D.rows select_by_id (("id", number event_id) ∷ []) s
    row ← one_or_none rows
    if_row (λ (x : ℕ × Row P C.Json). row_to_event C x.1) row

  -- `_fetch`
  unfoldable pub fetch : D.State → Where → Result Exception (List (StoredEvent P))
  unfolding for_each row_to_stored
  fetch s q = do rows ← D.rows (page q.clauses) q.params s; for_each (row_to_stored C) rows

  unfoldable pub find_by_workgraph :
      D.State → String → Option ℤ → ℤ → Result Exception (List (StoredEvent P))
  unfolding fetch where_workgraph
  find_by_workgraph s workgraph_id from_id limit =
      fetch s (where_workgraph workgraph_id from_id limit)

  unfoldable pub find_by_task :
      D.State → String → Option ℤ → ℤ → Result Exception (List (StoredEvent P))
  unfolding fetch where_task
  find_by_task s task_id from_id limit = fetch s (where_task task_id from_id limit)

  unfoldable pub find_filtered :
      D.State → EventFilter → Option ℤ → ℤ → Result Exception (List (StoredEvent P))
  unfolding fetch where_filtered
  find_filtered s f from_id limit = fetch s (where_filtered f from_id limit)

  -- `_last`
  unfoldable pub last : D.State → Column → String → Result Exception (Option (StoredEvent P))
  unfolding one_or_none if_row row_to_stored
  last s col value = do
    rows ← D.rows (last_row (equals col "v" ∷ [])) (("v", text value) ∷ []) s
    row ← one_or_none rows
    if_row (row_to_stored C) row

  -- `_count`
  unfoldable pub count : D.State → Column → String → Result Exception ℕ
  count s col value = D.scalar (count_rows (equals col "v" ∷ [])) (("v", text value) ∷ []) s

  unfoldable pub find_last_by_workgraph :
      D.State → String → Result Exception (Option (StoredEvent P))
  unfolding last
  find_last_by_workgraph s workgraph_id = last s Column.workgraph_id workgraph_id

  unfoldable pub find_last_by_task : D.State → String → Result Exception (Option (StoredEvent P))
  unfolding last
  find_last_by_task s task_id = last s Column.task_id task_id

  unfoldable pub count_by_workgraph : D.State → String → Result Exception ℕ
  unfolding count
  count_by_workgraph s workgraph_id = count s Column.workgraph_id workgraph_id

  unfoldable pub count_by_task : D.State → String → Result Exception ℕ
  unfolding count
  count_by_task s task_id = count s Column.task_id task_id
