-- ===== src/Repository/Postgres/SameAnswers.antt =====
-- `PostgresEventRepository` against `InMemoryEventRepository`: the two implementations of
-- `EventRepository` over one log.
use vfobs.Prelude.{ℕ, ◌≡◌, true, String, Option, sym, ◌∙◌, ap}
use vfobs.Prelude.Int.{ℤ, pos}
use vfobs.Prelude.Result.{ok}
use vfobs.Events.Platform.{Platform}
use vfobs.Repository.Model.{EventFilter}
use vfobs.Repository.Memory.{Repo}
use vfobs.Repository.Memory as Memory
use vfobs.Repository.Memory.Sorted.{IsWf}
use vfobs.Repository.Memory.Scan.{find_by_task_lem, find_by_workgraph_lem}
use vfobs.Repository.Memory.Filter.{find_filtered_lem}
use vfobs.Repository.Memory.Last.{last_and_count}
use vfobs.Repository.Postgres as Postgres
use vfobs.Repository.Postgres.Sql.{in_bigint, Database, DatabaseLaws}
use vfobs.Repository.Postgres.Rows.{Codec, CodecLaws}
use vfobs.Repository.Postgres.Wheres.{opt_bigint, TakesFilter}
use vfobs.Repository.Postgres.Reads.{KeepsJson, Represents}
use vfobs.Repository.Postgres.Pages.{
  postgres-find_by_task, postgres-find_by_workgraph, postgres-find_filtered,
}
use vfobs.Repository.Postgres.Single.{
  postgres-find_last_by_task, postgres-find_last_by_workgraph, postgres-count_by_task,
  postgres-count_by_workgraph,
}
use vfobs.Repository.Postgres.ById.{postgres-get_by_id}

module _ {P : Platform} (C : Codec P) {D : Database P C.Json} (L : DatabaseLaws D) where
  -- What is asked: an event by its id, pages from a cursor on, and the last event and the count of a
  -- workgraph and of a task.
  pub record Asked : Type 0 where
    pub event_id : ℕ
    pub workgraph_id : String
    pub task_id : String
    pub filter : EventFilter
    pub from_id : Option ℤ
    pub limit : ℤ

  -- The driver takes it: its texts are in the encoding of the database, and its id and its cursor in the
  -- range of BIGINT.
  pub record IsTaken (a : Asked) : Type 0 where
    pub event_id : in_bigint (pos a.event_id) ≡ true
    pub workgraph_id : L.encodes a.workgraph_id ≡ true
    pub task_id : L.encodes a.task_id ≡ true
    pub filter : TakesFilter L.encodes a.filter
    pub from_id : opt_bigint a.from_id ≡ true

  -- The table and the dictionary answer every query alike, and no query of the table raises.
  pub record SameAnswers (s : D.State) (r : Repo P) (a : Asked) : Type 0 where
    pub by_id : Postgres.get_by_id C D s (pos a.event_id) ≡ ok (Memory.get_by_id r a.event_id)
    pub by_workgraph :
        Postgres.find_by_workgraph C D s a.workgraph_id a.from_id a.limit
        ≡ ok (Memory.find_by_workgraph r a.workgraph_id a.from_id a.limit)
    pub by_task :
        Postgres.find_by_task C D s a.task_id a.from_id a.limit
        ≡ ok (Memory.find_by_task r a.task_id a.from_id a.limit)
    pub filtered :
        Postgres.find_filtered C D s a.filter a.from_id a.limit
        ≡ ok (Memory.find_filtered r a.filter a.from_id a.limit)
    pub last_of_workgraph :
        Postgres.find_last_by_workgraph C D s a.workgraph_id
        ≡ ok (Memory.find_last_by_workgraph r a.workgraph_id)
    pub last_of_task :
        Postgres.find_last_by_task C D s a.task_id ≡ ok (Memory.find_last_by_task r a.task_id)
    pub count_of_workgraph :
        Postgres.count_by_workgraph C D s a.workgraph_id
        ≡ ok (Memory.count_by_workgraph r a.workgraph_id)
    pub count_of_task :
        Postgres.count_by_task C D s a.task_id ≡ ok (Memory.count_by_task r a.task_id)

  -- A table that holds the events of a well-formed in-memory repository, under the same ids, answers
  -- every lookup, page, filter, last event and count whose texts the encoding of the database has, and
  -- whose id and cursor are in the range of BIGINT, as that repository does; the limit may be any.
  pub postgres-SameAnswers :
      (CL : CodecLaws C) (J : KeepsJson C L) (s : D.State) (r : Repo P) (a : Asked)
      → IsWf r
      → Represents C L s r.events
      → IsTaken a
      → SameAnswers s r a
  unfolding Memory.get_by_id
  postgres-SameAnswers CL J s r a w h t = record {
    by_id = postgres-get_by_id C L CL J s r.events h a.event_id t.event_id;
    by_workgraph =
        postgres-find_by_workgraph C L CL J s r.events h a.workgraph_id a.from_id a.limit
          t.workgraph_id t.from_id
        ∙ ap ok (sym (find_by_workgraph_lem r a.workgraph_id a.from_id a.limit w));
    by_task =
        postgres-find_by_task C L CL J s r.events h a.task_id a.from_id a.limit t.task_id t.from_id
        ∙ ap ok (sym (find_by_task_lem r a.task_id a.from_id a.limit w));
    filtered =
        postgres-find_filtered C L CL J s r.events h a.filter a.from_id a.limit t.filter t.from_id
        ∙ ap ok (sym (find_filtered_lem r a.filter a.from_id a.limit w));
    last_of_workgraph =
        postgres-find_last_by_workgraph C L CL J s r.events h a.workgraph_id t.workgraph_id
        ∙ ap ok (sym (last_and_count r a.workgraph_id w).2);
    last_of_task =
        postgres-find_last_by_task C L CL J s r.events h a.task_id t.task_id
        ∙ ap ok (sym (last_and_count r a.task_id w).0);
    count_of_workgraph =
        postgres-count_by_workgraph C L CL J s r.events h a.workgraph_id t.workgraph_id
        ∙ ap ok (sym (last_and_count r a.workgraph_id w).3);
    count_of_task =
        postgres-count_by_task C L CL J s r.events h a.task_id t.task_id
        ∙ ap ok (sym (last_and_count r a.task_id w).1);
  }
