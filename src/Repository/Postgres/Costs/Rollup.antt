-- ===== src/Repository/Postgres/Costs/Rollup.antt =====
-- What `cost_summary` gives over a table that holds a log: the rollup of the scope.
use mathlib.Core.Option
use vfobs.Prelude.{
  ℕ, ◌≡◌, refl, ap, ◌∙◌, String, true, not, ◌&&◌, Option, none, some, List, [], ◌∷◌, arith, map,
  is_some, length, opt_eq,
}
use vfobs.Prelude.Dict
use vfobs.Prelude.Dict.{string_key}
use vfobs.Prelude.Int.{ℤ, pos, ◌+ℤ◌}
use vfobs.Repository.Postgres.Wheres.{opt_encodes}
use vfobs.Prelude.Result.{Result, ok, Exception}
use vfobs.Events.Platform.{Platform}
use vfobs.Events.Base.{Event}
use vfobs.Events.Namespaces.{ExecutionSummary, execution_summary_of}
use vfobs.Repository.Model.{CostSummary}
use vfobs.Repository.Log.Cost.{push, IsDistinct}
use vfobs.Repository.Log.Filter.{agrees, opt_agrees}
use vfobs.Repository.Postgres.Sql.{
  text, Database, DatabaseLaws, Column, column_of, order_by_id, Row,
}
use vfobs.Repository.Postgres.Rows.{Codec, CodecLaws, event_to_row}
use vfobs.Repository.Postgres.Reads.{
  KeepsJson, IsStorable, AllStorable, row_of, Represents, order_by_id_lem,
}
use vfobs.Repository.Postgres.Costs.{
  CostDatabase, CostLaws, cost_summary, rollup_query, read_with, row_entry, sum_ints, keep_last,
  row_entries, casts, aggregate,
}
use vfobs.Repository.Postgres.Costs.Latest.{
  keys, get-keep_last, keep_last-IsDistinct, log_entry, log_entries, latest_summary,
  last_for-log_entries,
}

-- The sum of what is there.
abbrev pub total : ℤ → List (Option ℤ) → ℤ
total sum [] = sum
total sum (none ∷ l) = total sum l
total sum (some i ∷ l) = total (sum +ℤ i) l

-- `result` is the rollup of the scope: there is a list that has each task with a contribution once,
-- with its latest summary, and no other task; it is counted, and its costs, its tokens and its turns
-- are summed.
abbrev pub IsSqlRollup :
    {P : Platform} {Json : Type 0} {D : Database P Json}
    → CostDatabase D
    → Option String
    → Option String
    → List (ℕ × Event P)
    → Result Exception (CostSummary P)
    → Type 0
IsSqlRollup {P = P} K w a log result =
    (l : List (String × ExecutionSummary P)) × IsDistinct (keys l)
    × ((t : String) → Dict.get t l ≡ latest_summary w a log t)
    × (result
        ≡ ok (record {
          total_cost_usd = K.sum_cost (map (λ e. e.1.cost_usd) l);
          total_tokens = total (pos 0) (map (λ e. e.1.total_tokens) l);
          total_turns = total (pos 0) (map (λ e. e.1.num_turns) l);
          task_count = length l;
          sample_event_count = length l;
        }))

sum_ints-total : (sum : ℤ) (l : List (Option ℤ)) → sum_ints sum l ≡ total sum l
sum_ints-total sum [] = refl
sum_ints-total sum (none ∷ l) = sum_ints-total sum l
sum_ints-total sum (some i ∷ l) = sum_ints-total (sum +ℤ i) l

module _ {P : Platform} (C : Codec P) {D : Database P C.Json} (L : DatabaseLaws D)
    (K : CostDatabase D) where
  -- The query's column and value stand for the scope.
  abbrev IsScope : Option String → Option String → Column → String → Type 0
  IsScope w a col scope =
      (x : ℕ × Event P)
      → opt_eq (column_of col (row_of C L x).1) scope
        ≡ (agrees w x.1.workgraph_id && opt_agrees a x.1.agent_id)

  module _ (CL : CodecLaws C) (J : KeepsJson C L) (Q : CostLaws C L K) where
    -- The query of a column, with the scope as its parameter.
    abbrev scoped : Column → String → List (ℕ × Row P C.Json) → List (String × ExecutionSummary P)
    scoped col scope = row_entries K (rollup_query col) (("scope", text scope) ∷ [])

    summary_lem :
        (x : ℕ × Event P) (col : Column)
        → IsStorable C x.1
        → Option.map
            (read_with K (rollup_query col))
            (K.member_at "execution_summary" (row_of C L x).1.raw_data)
          ≡ execution_summary_of x.1.payload
    unfolding event_to_row rollup_query
    summary_lem x col h =
        Q.summary_law x.1.payload (row_of C L x).1.raw_data h.finite
          (J.json_of-jsonb (event_to_row C x.1).raw_data ∙ CL.loads-dumps (C.dump_data x.1.payload))

    row_entry_lem :
        (w a : Option String) (col : Column) (scope : String) (x : ℕ × Event P)
        → IsScope w a col scope
        → IsStorable C x.1
        → row_entry K (rollup_query col) (("scope", text scope) ∷ []) (row_of C L x)
          ≡ log_entry w a x
    unfolding row_entry event_to_row rollup_query Dict.get
    row_entry_lem w a col scope x same h = rw (same x, summary_lem x col h) refl

    row_entries_lem :
        (w a : Option String) (col : Column) (scope : String) (log : List (ℕ × Event P))
        → IsScope w a col scope
        → AllStorable C log
        → scoped col scope (map (row_of C L) log) ≡ log_entries w a log
    unfolding row_entries
    row_entries_lem w a col scope [] same h = refl
    row_entries_lem w a col scope (x ∷ xs) same h =
        ap (λ o. push o (scoped col scope (map (row_of C L) xs)))
          (row_entry_lem w a col scope x same h.0)
        ∙ ap (push (log_entry w a x)) (row_entries_lem w a col scope xs same h.1)

    aggregate_lem :
        (l : List (String × ExecutionSummary P))
        → aggregate K l ≡ record {
          total_cost_usd = K.sum_cost (map (λ e. e.1.cost_usd) l);
          total_tokens = total (pos 0) (map (λ e. e.1.total_tokens) l);
          total_turns = total (pos 0) (map (λ e. e.1.num_turns) l);
          task_count = length l;
          sample_event_count = length l;
        }
    unfolding aggregate
    aggregate_lem l =
        rw
          (
            sum_ints-total (pos 0) (map (λ e. e.1.total_tokens) l),
            sum_ints-total (pos 0) (map (λ e. e.1.num_turns) l),
          )
          refl

    query_lem :
        (s : D.State) (log : List (ℕ × Event P)) (w a : Option String) (col : Column)
        (scope : String)
        → Represents C L s log
        → IsScope w a col scope
        → L.encodes scope ≡ true
        → casts K (log_entries w a log) ≡ true
        → IsSqlRollup K w a log (K.cost_row (rollup_query col) (("scope", text scope) ∷ []) s)
    unfolding rollup_query Dict.get
    query_lem s log w a col scope h same taken fits =
        let ordered : order_by_id (L.table s) ≡ map (row_of C L) log =
          ap order_by_id h.rows ∙ order_by_id_lem C L 1 (L.next_id s) log h.ascends in
        let selected : scoped col scope (order_by_id (L.table s)) ≡ log_entries w a log =
          ap (scoped col scope) ordered ∙ row_entries_lem w a col scope log same h.storable in
        (
          keep_last (log_entries w a log),
          keep_last-IsDistinct (log_entries w a log),
          λ t. get-keep_last t (log_entries w a log) ∙ last_for-log_entries w a t log,
          Q.cost_law s (rollup_query col) (("scope", text scope) ∷ []) refl (rw taken refl)
                (ap (casts K) selected ∙ fits)
              ∙ ap (λ l. ok (aggregate K (keep_last l))) selected
              ∙ ap ok (aggregate_lem (keep_last (log_entries w a log))),
        )

    -- Over a table that holds a log, with exactly one of the two scopes given, a text of the database's
    -- encoding, and every count in the range of the type int: there is a list that has each task with a
    -- contribution in the scope once, with its latest execution summary, and no other task, and
    -- `cost_summary` gives its length, the database's sum of its costs, and the sums of its tokens and
    -- of its turns.
    pub postgres-cost_summary :
        (s : D.State) (log : List (ℕ × Event P)) (w a : Option String)
        → Represents C L s log
        → is_some w ≡ not (is_some a)
        → opt_encodes L.encodes w ≡ true
        → opt_encodes L.encodes a ≡ true
        → casts K (log_entries w a log) ≡ true
        → IsSqlRollup K w a log (cost_summary K s w a)
    unfolding cost_summary event_to_row
    postgres-cost_summary s log none none h one tw ta fits = cc
    postgres-cost_summary s log (some w) (some a) h one tw ta fits = cc
    postgres-cost_summary s log (some w) none h one tw ta fits =
        query_lem s log (some w) none Column.workgraph_id w h (λ x. ground arith) tw fits
    postgres-cost_summary s log none (some a) h one tw ta fits =
        query_lem s log none (some a) Column.agent_id a h (λ x. refl) ta fits
