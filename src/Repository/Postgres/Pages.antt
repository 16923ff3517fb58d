-- ===== src/Repository/Postgres/Pages.antt =====
-- The pages of `PostgresEventRepository`: `find_by_workgraph`, `find_by_task` and `find_filtered`,
-- over a table that holds a log of events.
use vfobs.Prelude.{
  ℕ, ◌≡◌, refl, String, Bool, true, not, ◌&&◌, Option, none, some, List, arith, take,
}
use vfobs.Prelude.Int.{ℤ}
use vfobs.Prelude.Result.{ok}
use vfobs.Events.Platform.{Platform}
use vfobs.Events.Base.{Event, event_type}
use vfobs.Events.Classes.{before_dot}
use vfobs.Repository.Model.{EventFilter, page_size, before_cursor}
use vfobs.Repository.Log.{of_task, of_workgraph, visible, hits}
use vfobs.Repository.Log.Filter.{agrees, opt_agrees, satisfies}
use vfobs.Repository.Postgres.Sql.{Database, DatabaseLaws, Column, equals, namespace}
use vfobs.Repository.Postgres.Rows.{Codec, CodecLaws, event_to_row}
use vfobs.Repository.Postgres.Wheres.{
  opt_bigint, TakesFilter, text_test, cursor_test, filtered_test, where_workgraph-Means,
  where_task-Means, where_filtered-Means,
}
use vfobs.Repository.Postgres.Reads.{KeepsJson, row_of, Represents, fetch-Means}
use vfobs.Repository.Postgres.{find_by_workgraph, find_by_task, find_filtered}

module _ {P : Platform} (C : Codec P) {D : Database P C.Json} (L : DatabaseLaws D) where
  cursor_test_lem :
      (from_id : Option ℤ) (x : ℕ × Event P)
      → cursor_test L.encodes from_id (row_of C L x) ≡ not (before_cursor from_id x.0)
  cursor_test_lem none x = refl
  cursor_test_lem (some i) x = refl

  workgraph_test_lem :
      (o : Option String) (x : ℕ × Event P)
      → text_test L.encodes (equals Column.workgraph_id "workgraph_id") o (row_of C L x)
        ≡ agrees o x.1.workgraph_id
  unfolding event_to_row
  workgraph_test_lem none x = refl
  workgraph_test_lem (some s) x = refl

  task_test_lem :
      (o : Option String) (x : ℕ × Event P)
      → text_test L.encodes (equals Column.task_id "task_id") o (row_of C L x)
        ≡ opt_agrees o x.1.task_id
  unfolding event_to_row
  task_test_lem none x = refl
  task_test_lem (some s) x = refl

  agent_test_lem :
      (o : Option String) (x : ℕ × Event P)
      → text_test L.encodes (equals Column.agent_id "agent_id") o (row_of C L x)
        ≡ opt_agrees o x.1.agent_id
  unfolding event_to_row
  agent_test_lem none x = refl
  agent_test_lem (some s) x = refl

  org_test_lem :
      (o : Option String) (x : ℕ × Event P)
      → text_test L.encodes (equals Column.org_id "org_id") o (row_of C L x) ≡ agrees o x.1.org_id
  unfolding event_to_row
  org_test_lem none x = refl
  org_test_lem (some s) x = refl

  type_test_lem :
      (o : Option String) (x : ℕ × Event P)
      → text_test L.encodes (equals Column.type_ "type_") o (row_of C L x)
        ≡ agrees o (event_type x.1)
  unfolding event_to_row
  type_test_lem none x = refl
  type_test_lem (some s) x = refl

  namespace_test_lem :
      (o : Option String) (x : ℕ × Event P)
      → text_test L.encodes (namespace "type_namespace") o (row_of C L x)
        ≡ agrees o (before_dot (event_type x.1))
  unfolding event_to_row
  namespace_test_lem none x = refl
  namespace_test_lem (some s) x = refl

  filtered_test_lem :
      (f : EventFilter) (from_id : Option ℤ) (x : ℕ × Event P)
      → filtered_test L.encodes f from_id (row_of C L x) ≡ visible (satisfies f) from_id x
  unfolding satisfies
  filtered_test_lem f from_id x =
      rw
        (
          workgraph_test_lem f.workgraph_id x,
          task_test_lem f.task_id x,
          agent_test_lem f.agent_id x,
          org_test_lem f.org_id x,
          type_test_lem f.type_ x,
          namespace_test_lem f.type_namespace x,
          cursor_test_lem from_id x,
        )
        (reorder (agrees f.workgraph_id x.1.workgraph_id) (opt_agrees f.task_id x.1.task_id)
          (opt_agrees f.agent_id x.1.agent_id) (agrees f.org_id x.1.org_id)
          (agrees f.type_ (event_type x.1)) (agrees f.type_namespace (before_dot (event_type x.1)))
          (not (before_cursor from_id x.0)))
    where
      reorder :
          (a b c d e g h : Bool)
          → (((((((true && a) && b) && c) && d) && e) && g) && h)
            ≡ (h && (a && (b && (c && (d && (e && g))))))
      reorder a b c d e g h = ground arith

  module _ (CL : CodecLaws C) (J : KeepsJson C L) (s : D.State) (log : List (ℕ × Event P))
      (h : Represents C L s log) where
    pub postgres-find_by_workgraph :
        (w : String) (from_id : Option ℤ) (limit : ℤ)
        → L.encodes w ≡ true
        → opt_bigint from_id ≡ true
        → find_by_workgraph C D s w from_id limit
          ≡ ok (take (page_size limit) (hits (of_workgraph w) from_id log))
    unfolding find_by_workgraph
    postgres-find_by_workgraph w from_id limit fits at =
        fetch-Means C L CL J s log h _ (page_size limit) _ (visible (of_workgraph w) from_id)
          (where_workgraph-Means L.encodes w from_id limit fits at)
          (λ x. rw (workgraph_test_lem (some w) x, cursor_test_lem from_id x) (ground arith))

    pub postgres-find_by_task :
        (t : String) (from_id : Option ℤ) (limit : ℤ)
        → L.encodes t ≡ true
        → opt_bigint from_id ≡ true
        → find_by_task C D s t from_id limit
          ≡ ok (take (page_size limit) (hits (of_task t) from_id log))
    unfolding find_by_task
    postgres-find_by_task t from_id limit fits at =
        fetch-Means C L CL J s log h _ (page_size limit) _ (visible (of_task t) from_id)
          (where_task-Means L.encodes t from_id limit fits at)
          (λ x. rw (task_test_lem (some t) x, cursor_test_lem from_id x) (ground arith))

    pub postgres-find_filtered :
        (f : EventFilter) (from_id : Option ℤ) (limit : ℤ)
        → TakesFilter L.encodes f
        → opt_bigint from_id ≡ true
        → find_filtered C D s f from_id limit
          ≡ ok (take (page_size limit) (hits (satisfies f) from_id log))
    unfolding find_filtered
    postgres-find_filtered f from_id limit fits at =
        fetch-Means C L CL J s log h _ (page_size limit) _ (visible (satisfies f) from_id)
          (where_filtered-Means L.encodes f from_id limit fits at) (filtered_test_lem f from_id)
