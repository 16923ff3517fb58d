-- ===== src/Repository/Log/Cost.antt =====
-- What a cost rollup promises: the newest execution summary of each task, each task once.
use vfobs.Prelude.{
  ℕ, ◌≡◌, ◌≢◌, ◌↔◌, String, str_eq, Bool, true, false, ◌&&◌, ◌||◌, Option, none, some, List, [],
  ◌∷◌, length, last?, opt_eq, if◌then◌else◌,
}
use mathlib.Core.Option
use vfobs.Prelude.Int.{ℤ, pos}
use vfobs.Prelude.Result.{Result, ok, Exception}
use vfobs.Events.Platform.{Platform}
use vfobs.Events.Base.{Event, event_type}
use vfobs.Events.Namespaces.{ExecutionSummary, execution_summary_of}
use vfobs.Repository.Model.{CostSummary, add_int, add_cost}
use vfobs.Repository.Log.Filter.{agrees, opt_agrees}

abbrev pub member : String → List String → Bool
member t [] = false
member t (s ∷ l) = str_eq s t || member t l

abbrev pub IsDistinct : List String → Type 0
IsDistinct [] = Unit
IsDistinct (s ∷ l) = (member s l ≡ false) × IsDistinct l

module _ {ℓ} {A : Type ℓ} where
  abbrev pub push : Option A → List A → List A
  push none l = l
  push (some a) l = a ∷ l

module _ {P : Platform} (workgraph_id agent_id : Option String) where
  -- The event changes the state of a task in the scope.
  abbrev pub in_scope : Event P → Bool
  in_scope ev =
      str_eq (event_type ev) "task.state_changed"
      && (agrees workgraph_id ev.workgraph_id && opt_agrees agent_id ev.agent_id)

  -- What an event contributes for one task: its id and its summary.
  abbrev pub contribution : String → ℕ × Event P → Option (ℕ × ExecutionSummary P)
  contribution task_id (eid, ev) =
      if in_scope ev && opt_eq ev.task_id task_id
      then Option.map (λ es. (eid, es)) (execution_summary_of ev.payload)
      else none

  -- All contributions for one task, in the order of the ids.
  abbrev pub contributions : String → List (ℕ × Event P) → List (ℕ × ExecutionSummary P)
  contributions task_id [] = []
  contributions task_id (x ∷ xs) = push (contribution task_id x) (contributions task_id xs)

module _ {P : Platform} where
  -- The three totals over a list of tasks, each with the summary that `f` gives it.
  unfoldable pub task_totals :
      (String → Option (ℕ × ExecutionSummary P)) → P.Float → ℤ → ℤ → List String → P.Float × ℤ × ℤ
  task_totals f cost tokens turns [] = (cost, tokens, turns)
  task_totals f cost tokens turns (t ∷ ts) = elim (f t) [
    | none ↦ task_totals f cost tokens turns ts
    | some c ↦
        task_totals f (add_cost P cost c.1.cost_usd) (add_int tokens c.1.total_tokens)
          (add_int turns c.1.num_turns) ts
  ]

  -- The summary over a list of tasks, each with the execution summary that `f` gives it.
  unfoldable pub summary_of :
      (String → Option (ℕ × ExecutionSummary P)) → List String → CostSummary P
  unfolding task_totals
  summary_of f tasks =
      let (cost, tokens, turns) = task_totals f P.float_zero (pos 0) (pos 0) tasks in
      record {
        total_cost_usd = cost;
        total_tokens = tokens;
        total_turns = turns;
        task_count = length tasks;
        sample_event_count = length tasks;
      }

  -- `result` is the rollup over the events of the scope: there is a list of distinct tasks, those
  -- with a contribution, which are counted, and the latest contribution of each is summed.
  abbrev pub IsRollup :
      Option String → Option String → List (ℕ × Event P) → Result Exception (CostSummary P) → Type 0
  IsRollup w a log result =
      (tasks : List String) × IsDistinct tasks
      × ((t : String) → (member t tasks ≡ true) ↔ (contributions w a t log ≢ []))
      × (result ≡ ok (summary_of (λ t. last? (contributions w a t log)) tasks))
