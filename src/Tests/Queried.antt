-- ===== src/Tests/Queried.antt =====
-- `PostgresEventRepository` at concrete tables.
-- `PostgresEventRepository` with them.
use vfobs.Prelude.{ℕ, ◌≡◌, refl, true, none, some, List, [], ◌∷◌, ◌++◌, arith}
use vfobs.Prelude.Dict
use vfobs.Prelude.Dict.{string_key}
use vfobs.Prelude.Int.{pos, ◌+ℤ◌}
use vfobs.Repository.Postgres.Costs.{rollup_query, rollup_text}
use vfobs.Repository.Postgres.Sql.{Column}
use vfobs.Prelude.Result.{ok, raise, db_api_error}
use vfobs.Repository.Postgres.Wheres.{TakesFilter}
use vfobs.Repository.Postgres.{fetch}
use vfobs.Events.Classes.{before_dot}
use vfobs.Events.Namespaces.{Payload}
use vfobs.Events.Base.{Event, new_event, fields_of, event_type}
use vfobs.Repository.Model.{EventFilter, clamp_limit}
use vfobs.Repository.Log.{stored}
use vfobs.Repository.Memory.{Repo}
use vfobs.Repository.Memory.Sorted.{IsWf}
use vfobs.Repository.Postgres.Sql.{parsed, page, statement_text}
use vfobs.Repository.Postgres.Rows.{
  event_to_row, row_to_event, row_to_event-event_to_row, with_data,
}
use vfobs.Repository.Postgres.Reads.{IsStorable, Represents}
use vfobs.Repository.Postgres.{get_by_id, where_filtered, store, find_filtered}
use vfobs.Repository.Postgres.Pages.{postgres-find_filtered}
use vfobs.Repository.Log.Filter.{satisfies}
use vfobs.Repository.Postgres.Insert.{postgres-store}
use vfobs.Repository.Postgres.SameAnswers.{Asked, IsTaken, SameAnswers, postgres-SameAnswers}
use vfobs.Tests.Data.{platform, claim, claim_data, event_at}
use vfobs.Events.Namespaces.{execution_summary_of}
use vfobs.Prelude.Dict
use vfobs.Repository.Postgres.Sql.{insert_row}
use vfobs.Repository.Postgres.Costs.{cost_summary}
use vfobs.Repository.Postgres.Costs.Rollup.{IsSqlRollup, postgres-cost_summary}
use vfobs.Tests.Codecs.{some_costs, codec, codec-laws, is_known}
use vfobs.Tests.Tables.{
  no_zero, if_taken, costs, costs-laws, row_for, TableRow, TableState, database, database-laws,
  keeps_json,
}

abbrev claim_again : Event platform
claim_again = event_at 20 claim_data

abbrev started : Event platform
started = event_at 30 (Payload.judge_started (record { judge_agent_id = "j1" }))

event_at-IsStorable :
    (n : ℕ) (p : Payload platform) → is_known p ≡ true → IsStorable codec (event_at n p)
unfolding new_event fields_of
event_at-IsStorable n p h = record { finite = h; stable = refl }

-- Ids may leave gaps.
abbrev claims : Repo platform
claims = record { events = (1, claim) ∷ (4, claim_again) ∷ []; next_id = 5 }

claims-IsWf : IsWf claims
claims-IsWf = record { ascends = (omega arith, (omega arith, omega arith)) }

abbrev row_at : ℕ → ℕ → TableRow
row_at i n = (i, with_data codec (parsed "aa1") (event_to_row codec (event_at n claim_data)))

abbrev claims_table : TableState
claims_table = (row_at 1 10 ∷ row_at 4 20 ∷ [], 5)

claims-Represents : Represents codec database-laws claims_table claims.events
unfolding event_to_row database-laws
claims-Represents = record {
  rows = refl;
  ascends = (omega arith, (omega arith, omega arith));
  storable = (event_at-IsStorable 10 claim_data refl, (event_at-IsStorable 20 claim_data refl, tt));
}

row_to_event_example :
    row_to_event codec (with_data codec (parsed "aa1") (event_to_row codec claim)) ≡ ok claim
unfolding event_to_row
row_to_event_example =
    row_to_event-event_to_row codec codec-laws claim (parsed "aa1") refl
      (event_at-IsStorable 10 claim_data refl).stable refl

postgres-store_example :
    (s' : TableState) × (eid : ℕ) × (store codec database claims_table started ≡ ok (s', eid))
    × Represents codec database-laws s' (claims.events ++ (eid, started) ∷ [])
    × (get_by_id codec database claims_table (pos eid) ≡ ok none)
    × (get_by_id codec database s' (pos eid) ≡ ok (some started))
unfolding database-laws
postgres-store_example =
    postgres-store codec database-laws codec-laws keeps_json claims_table claims.events started
      claims-Represents (event_at-IsStorable 30 started.payload refl) refl

abbrev of_agent : EventFilter
of_agent = record {
  workgraph_id = none;
  task_id = some "t1";
  agent_id = some "a1";
  type_ = none;
  type_namespace = some "task";
  org_id = none;
}

abbrev asked : Asked codec database-laws
asked = record {
  event_id = 4;
  workgraph_id = "w1";
  task_id = "t1";
  filter = of_agent;
  from_id = some (pos 2);
  limit = pos 10;
}

of_agent-taken : TakesFilter no_zero of_agent
of_agent-taken = record {
  workgraph_id = refl;
  task_id = refl;
  agent_id = refl;
  org_id = refl;
  type_ = refl;
  type_namespace = refl;
}

asked-IsTaken : IsTaken codec database-laws asked
unfolding database-laws
asked-IsTaken = record {
  event_id = refl;
  workgraph_id = refl;
  task_id = refl;
  filter = of_agent-taken;
  from_id = refl;
}

postgres-SameAnswers_example : SameAnswers codec database-laws claims_table claims asked
postgres-SameAnswers_example =
    postgres-SameAnswers codec database-laws codec-laws keeps_json claims_table claims asked
      claims-IsWf claims-Represents asked-IsTaken

filtered_page :
    find_filtered codec database claims_table of_agent (some (pos 2)) (pos 10)
    ≡ ok (stored (4, claim_again) ∷ [])
unfolding clamp_limit satisfies event_type before_dot database-laws
filtered_page =
    postgres-find_filtered codec database-laws codec-laws keeps_json claims_table claims.events
      claims-Represents of_agent (some (pos 2)) (pos 10) of_agent-taken refl

-- A cursor that the driver does not take.
far_cursor :
    find_filtered codec database claims_table of_agent
      (some (pos 1000000000000000000000000000000))
      (pos 10)
    ≡ raise db_api_error
unfolding find_filtered fetch where_filtered if_taken Dict.set clamp_limit
far_cursor = refl

-- The text that is sent for it.
filtered_text :
    statement_text (page (where_filtered of_agent (some (pos 2)) (pos 10)).clauses)
    ≡ "SELECT id, v, workgraph_id, task_id, agent_id, trace_id, source, type, timestamp, data, classification, org_id, cluster_id, created_at FROM vfobs.events WHERE 1 = 1 AND task_id = :task_id AND agent_id = :agent_id AND split_part(type, '.', 1) = :type_namespace AND id >= :from_id ORDER BY id ASC LIMIT :limit"
unfolding statement_text where_filtered
filtered_text = refl

abbrev over_data : Payload platform
over_data =
    Payload.task_state_changed
      (record { from_status = ""; to_status = "done"; execution_summary = some some_costs })

-- Two changes of one task's state, of which the later counts.
abbrev over_log : List (ℕ × Event platform)
over_log = (2, event_at 40 over_data) ∷ (3, event_at 50 over_data) ∷ []

abbrev over_row : ℕ → ℕ → TableRow
over_row i n = (i, with_data codec (parsed "tdone") (event_to_row codec (event_at n over_data)))

abbrev over_table : TableState
over_table = (over_row 2 40 ∷ over_row 3 50 ∷ [], 4)

over-Represents : Represents codec database-laws over_table over_log
unfolding event_to_row database-laws
over-Represents = record {
  rows = refl;
  ascends = (omega arith, (omega arith, omega arith));
  storable = (event_at-IsStorable 40 over_data refl, (event_at-IsStorable 50 over_data refl, tt));
}

postgres-cost_summary_example :
    IsSqlRollup costs (some "w1") none over_log (cost_summary costs over_table (some "w1") none)
unfolding execution_summary_of event_type database-laws
postgres-cost_summary_example =
    postgres-cost_summary codec database-laws costs codec-laws keeps_json costs-laws over_table
      over_log (some "w1") none over-Represents refl refl refl refl

one_task :
    cost_summary costs over_table (some "w1") none
    ≡ ok (record {
      total_cost_usd = 4;
      total_tokens = pos 30;
      total_turns = pos 2;
      task_count = 1;
      sample_event_count = 1;
    })
unfolding cost_summary row_for event_to_row Dict.get insert_row ◌+ℤ◌
one_task = refl

agent_rollup_text :
    rollup_text (rollup_query Column.agent_id)
    ≡ "WITH latest AS ( SELECT DISTINCT ON (task_id) task_id, data->'execution_summary' AS es FROM vfobs.events WHERE type = 'task.state_changed' AND task_id IS NOT NULL AND data ? 'execution_summary' AND data->'execution_summary' IS NOT NULL AND data->'execution_summary' != 'null'::jsonb AND agent_id = :scope ORDER BY task_id, id DESC ) SELECT COALESCE(SUM((es->>'cost_usd')::numeric), 0)::float AS total_cost_usd, COALESCE(SUM((es->>'total_tokens')::int), 0) AS total_tokens, COALESCE(SUM((es->>'num_turns')::int), 0) AS total_turns, COUNT(*) AS task_count, COUNT(*) AS sample_event_count FROM latest"
unfolding rollup_text rollup_query
agent_rollup_text = refl
