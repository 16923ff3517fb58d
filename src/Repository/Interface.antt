-- ===== src/Repository/Interface.antt =====
-- The abstract class `EventRepository` of src/vfobs/repositories/event_repository.py: its methods
-- over a state that each implementation chooses, and the contract that its docstrings state.
use vfobs.Prelude.{
  ℕ, ◌≡◌, String, not, Option, none, List, [], ◌∷◌, ◌++◌, length, take, last?, is_some,
}
use vfobs.Prelude.Dict
use vfobs.Prelude.Dict.{nat_key}
use vfobs.Prelude.Int.{ℤ}
use vfobs.Prelude.Result.{Result, raise, Exception, value_error}
use vfobs.Events.Platform.{Platform}
use vfobs.Events.Base.{Event}
use vfobs.Repository.Model.{StoredEvent, CostSummary, EventFilter, page_size}
use vfobs.Repository.Log.{of_task, of_workgraph, hits, Ascends}
use vfobs.Repository.Log.Filter.{satisfies}
use vfobs.Repository.Log.Cost.{IsRollup}

pub record EventRepository (P : Platform) : Type 1 where
  pub State : Type 0
  pub store : State → Event P → State × ℕ
  pub get_by_id : State → ℕ → Option (Event P)
  pub find_by_workgraph : State → String → Option ℤ → ℤ → List (StoredEvent P)
  pub find_by_task : State → String → Option ℤ → ℤ → List (StoredEvent P)
  pub find_filtered : State → EventFilter → Option ℤ → ℤ → List (StoredEvent P)
  pub cost_summary : State → Option String → Option String → Result Exception (CostSummary P)
  pub find_last_by_workgraph : State → String → Option (StoredEvent P)
  pub find_last_by_task : State → String → Option (StoredEvent P)
  pub count_by_workgraph : State → String → ℕ
  pub count_by_task : State → String → ℕ

-- How a repository's state is seen: which states are valid, the log of events in such a state, and
-- an id that no event of the log has reached.
pub record View {P : Platform} (R : EventRepository P) : Type 1 where
  pub Valid : R.State → Type 0
  pub log : R.State → List (ℕ × Event P)
  pub bound : R.State → ℕ

-- A repository in a valid state is a log of events under ascending ids; every method is told by the
-- log alone.
pub record Contract {P : Platform} (R : EventRepository P) (V : View R) : Type 0 where
  pub log_ascends : (s : R.State) → V.Valid s → Ascends 1 (V.bound s) (V.log s)
  pub store_valid : (s : R.State) (e : Event P) → V.Valid s → V.Valid (R.store s e).0
  pub log-store :
      (s : R.State) (e : Event P)
      → V.Valid s
      → V.log (R.store s e).0 ≡ V.log s ++ ((R.store s e).1, e) ∷ []
  pub get_by_id_law : (s : R.State) (i : ℕ) → V.Valid s → R.get_by_id s i ≡ Dict.get i (V.log s)
  pub find_by_workgraph_law :
      (s : R.State) (w : String) (from_id : Option ℤ) (limit : ℤ)
      → V.Valid s
      → R.find_by_workgraph s w from_id limit
        ≡ take (page_size limit) (hits (of_workgraph w) from_id (V.log s))
  pub find_by_task_law :
      (s : R.State) (t : String) (from_id : Option ℤ) (limit : ℤ)
      → V.Valid s
      → R.find_by_task s t from_id limit
        ≡ take (page_size limit) (hits (of_task t) from_id (V.log s))
  pub find_filtered_law :
      (s : R.State) (f : EventFilter) (from_id : Option ℤ) (limit : ℤ)
      → V.Valid s
      → R.find_filtered s f from_id limit
        ≡ take (page_size limit) (hits (satisfies f) from_id (V.log s))
  pub cost_summary_law :
      (s : R.State) (w a : Option String)
      → V.Valid s
      → is_some w ≡ not (is_some a)
      → IsRollup w a (V.log s) (R.cost_summary s w a)
  pub cost_summary_error :
      (s : R.State) (w a : Option String)
      → is_some w ≡ is_some a
      → R.cost_summary s w a ≡ raise value_error
  pub find_last_by_workgraph_law :
      (s : R.State) (w : String)
      → V.Valid s
      → R.find_last_by_workgraph s w ≡ last? (hits (of_workgraph w) none (V.log s))
  pub find_last_by_task_law :
      (s : R.State) (t : String)
      → V.Valid s
      → R.find_last_by_task s t ≡ last? (hits (of_task t) none (V.log s))
  pub count_by_workgraph_law :
      (s : R.State) (w : String)
      → V.Valid s
      → R.count_by_workgraph s w ≡ length (hits (of_workgraph w) none (V.log s))
  pub count_by_task_law :
      (s : R.State) (t : String)
      → V.Valid s
      → R.count_by_task s t ≡ length (hits (of_task t) none (V.log s))
