-- ===== src/Api/Cost.antt =====
-- The cost endpoints and their aggregation strategies: src/vfobs/api/cost.py.
use vfobs.Prelude.{
  String, ◌≡◌, ◌≢◌, ◌⊎◌, inl, inr, refl, Bool, true, false, not, Option, none, some, List, [], ◌∷◌,
  arith, ltb, length, take, if◌then◌else◌,
}
use vfobs.Prelude.Int.{ℤ, pos}
use vfobs.Prelude.Result.{Result, ok, raise, Exception, http_exception, ◌>>=◌}
use vfobs.Events.Platform.{Platform}
use vfobs.Repository.Model.{CostSummary, EventFilter, StoredEvent, clamp_limit}
use vfobs.Repository.Log.{of_workgraph, hits}
use vfobs.Repository.Log.Filter.{satisfies}
use vfobs.Repository.Log.Cost.{IsRollup}
use vfobs.Repository.Interface.{EventRepository, View, Contract}

pub record WorkgraphCostResponse (P : Platform) : Type 0 where
  pub v : ℤ
  pub workgraph_id : String
  pub summary : CostSummary P

pub record AgentCostResponse (P : Platform) : Type 0 where
  pub v : ℤ
  pub agent_id : String
  pub summary : CostSummary P

-- The subclasses of `CostAggregationStrategy`.
pub data CostAggregationStrategy : Type 0 where
  by_workgraph : String → CostAggregationStrategy
  by_agent : String → CostAggregationStrategy

-- `find_filtered(agent_id=…)`
abbrev pub agent_filter : String → EventFilter
agent_filter agent_id = record {
  workgraph_id = none;
  task_id = none;
  agent_id = some agent_id;
  type_ = none;
  type_namespace = none;
  org_id = none;
}

-- `bool(l)` of a list.
abbrev is_nonempty {ℓ} : {A : Type ℓ} → List A → Bool
is_nonempty [] = false
is_nonempty (x ∷ l) = true

-- The two scopes that a strategy asks `cost_summary` for.
abbrev pub workgraph_scope : CostAggregationStrategy → Option String
workgraph_scope (by_workgraph workgraph_id) = some workgraph_id
workgraph_scope (by_agent agent_id) = none

abbrev pub agent_scope : CostAggregationStrategy → Option String
agent_scope (by_workgraph workgraph_id) = none
agent_scope (by_agent agent_id) = some agent_id

module _ {P : Platform} (R : EventRepository P) where
  unfoldable pub compute : CostAggregationStrategy → R.State → Result Exception (CostSummary P)
  compute (by_workgraph workgraph_id) s = R.cost_summary s (some workgraph_id) none
  compute (by_agent agent_id) s = R.cost_summary s none (some agent_id)

  unfoldable pub exists : CostAggregationStrategy → R.State → Bool
  exists (by_workgraph workgraph_id) s = ltb 0 (R.count_by_workgraph s workgraph_id)
  exists (by_agent agent_id) s =
      is_nonempty (R.find_filtered s (agent_filter agent_id) none (pos 1))

  -- `_run`
  unfoldable pub run : CostAggregationStrategy → R.State → Result Exception (CostSummary P)
  unfolding compute exists
  run strategy s =
      if not (exists strategy s)
      then raise (http_exception 404 "no events for this scope")
      else compute strategy s

  unfoldable pub workgraph_cost : String → R.State → Result Exception (WorkgraphCostResponse P)
  workgraph_cost workgraph_id s = do
    summary ← run (by_workgraph workgraph_id) s
    ok (record { v = pos 1; workgraph_id = workgraph_id; summary = summary })

  unfoldable pub agent_cost : String → R.State → Result Exception (AgentCostResponse P)
  agent_cost agent_id s = do
    summary ← run (by_agent agent_id) s
    ok (record { v = pos 1; agent_id = agent_id; summary = summary })

module _ {P : Platform} {R : EventRepository P} {V : View R} (C : Contract R V) where
  -- The events of the log in the scope of a strategy.
  abbrev pub in_scope_of : CostAggregationStrategy → R.State → List (StoredEvent P)
  in_scope_of (by_workgraph workgraph_id) s = hits (of_workgraph workgraph_id) none (V.log s)
  in_scope_of (by_agent agent_id) s = hits (satisfies (agent_filter agent_id)) none (V.log s)

  nonempty_first :
      (l : List (StoredEvent P))
      → ((l ≡ []) × (is_nonempty (take 1 l) ≡ false) × (ltb 0 (length l) ≡ false))
        ⊎ ((l ≢ []) × (is_nonempty (take 1 l) ≡ true) × (ltb 0 (length l) ≡ true))
  nonempty_first [] = inl (refl, refl, refl)
  nonempty_first (x ∷ l) = inr (λ e. cc e, refl, ground arith)

  exists_lem :
      (strategy : CostAggregationStrategy) (s : R.State)
      → V.Valid s
      → ((in_scope_of strategy s ≡ []) × (exists R strategy s ≡ false))
        ⊎ ((in_scope_of strategy s ≢ []) × (exists R strategy s ≡ true))
  unfolding exists clamp_limit
  exists_lem (by_workgraph w) s v = elim (nonempty_first (in_scope_of (by_workgraph w) s)) [
    | inl (e, f, g) ↦ inl (e, rw (C.count_by_workgraph_law s w v) g)
    | inr (e, f, g) ↦ inr (e, rw (C.count_by_workgraph_law s w v) g)
  ]
  exists_lem (by_agent a) s v = elim (nonempty_first (in_scope_of (by_agent a) s)) [
    | inl (e, f, g) ↦ inl (e, rw (C.find_filtered_law s (agent_filter a) none (pos 1) v) f)
    | inr (e, f, g) ↦ inr (e, rw (C.find_filtered_law s (agent_filter a) none (pos 1) v) f)
  ]

  compute_lem :
      (strategy : CostAggregationStrategy) (s : R.State)
      → V.Valid s
      → IsRollup (workgraph_scope strategy) (agent_scope strategy) (V.log s) (compute R strategy s)
  unfolding compute
  compute_lem (by_workgraph w) s v = C.cost_summary_law s (some w) none v refl
  compute_lem (by_agent a) s v = C.cost_summary_law s none (some a) v refl

  -- Over a valid repository a cost request is answered 404 exactly if its scope has no events at
  -- all, and otherwise with the rollup of the scope: it never fails in another way.
  pub run_lem :
      (strategy : CostAggregationStrategy) (s : R.State)
      → V.Valid s
      → ((in_scope_of strategy s ≡ [])
          × (run R strategy s ≡ raise (http_exception 404 "no events for this scope")))
        ⊎ ((in_scope_of strategy s ≢ [])
            × IsRollup
                (workgraph_scope strategy)
                (agent_scope strategy)
                (V.log s)
                (run R strategy s))
  unfolding run
  run_lem strategy s v = elim (exists_lem strategy s v) [
    | inl (e, f) ↦ inl (e, rw f refl)
    | inr (e, f) ↦ inr (e, rw f (compute_lem strategy s v))
  ]
