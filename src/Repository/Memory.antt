-- ===== src/Repository/Memory.antt =====
-- `InMemoryEventRepository` of src/vfobs/repositories/event_repository.py, its methods.
pub mod Sorted
pub mod Store
pub mod History
pub mod Scan
pub mod Last
pub mod Filter
pub mod Cost
pub mod Contract
use vfobs.Prelude.{
  ℕ, ◌+◌, String, str_eq, ◌≡◌, Bool, true, false, not, ◌&&◌, Option, none, some, List, [], ◌∷◌,
  ◌++◌, ltb, leb, length, select, opt_eq, is_some, if◌then◌else◌,
}
use vfobs.Prelude.Dict
use vfobs.Prelude.Dict.{nat_key, string_key}
use vfobs.Prelude.Int.{ℤ, pos, ltb_ℤ, ◌+ℤ◌}
use vfobs.Prelude.Result.{Result, ok, raise, Exception, value_error}
use vfobs.Events.Platform.{Platform}
use vfobs.Events.Base.{Event, event_type}
use vfobs.Events.Classes.{before_dot}
use vfobs.Events.Namespaces.{ExecutionSummary, execution_summary_of}
use vfobs.Repository.Log.{stored, of_task, of_workgraph}
use vfobs.Repository.Model.{StoredEvent, CostSummary, EventFilter, clamp_limit, before_cursor}

-- `_events` and the next value of `_next_id`.
pub record Repo (P : Platform) : Type 0 where
  pub events : List (ℕ × Event P)
  pub next_id : ℕ

-- `__init__`
abbrev pub init : {P : Platform} → Repo P
init = record { events = []; next_id = 1 }

-- `wanted is not None and actual != wanted`
abbrev pub differs : Option String → String → Bool
differs none actual = false
differs (some wanted) actual = not (str_eq actual wanted)

abbrev pub opt_differs : Option String → Option String → Bool
opt_differs none actual = false
opt_differs (some wanted) actual = not (opt_eq actual wanted)

module _ {P : Platform} where
  unfoldable pub store : Repo P → Event P → Repo P × ℕ
  store r event =
      (record { events = Dict.set r.next_id event r.events; next_id = r.next_id + 1 }, r.next_id)

  unfoldable pub get_by_id : Repo P → ℕ → Option (Event P)
  get_by_id r event_id = Dict.get event_id r.events

  -- `sorted(self._events.items())`: no two items have one id, so the events are never compared.
  unfoldable pub insert_item : ℕ × Event P → List (ℕ × Event P) → List (ℕ × Event P)
  insert_item x [] = x ∷ []
  insert_item x (y ∷ ys) = if ltb y.0 x.0 then y ∷ insert_item x ys else x ∷ y ∷ ys

  unfoldable pub sorted_items : List (ℕ × Event P) → List (ℕ × Event P)
  sorted_items [] = []
  sorted_items (x ∷ xs) = insert_item x (sorted_items xs)

  -- The loop of `_scan`.
  unfoldable pub scan_loop :
      (Event P → Bool)
      → Option ℤ
      → ℤ
      → List (ℕ × Event P)
      → List (StoredEvent P)
      → List (StoredEvent P)
  scan_loop predicate from_id cap [] out = out
  scan_loop predicate from_id cap ((eid, ev) ∷ rest) out =
      let continue = scan_loop predicate from_id cap rest out in
      let out' = out ++ stored (eid, ev) ∷ [] in
      let next = scan_loop predicate from_id cap rest out' in
      if before_cursor from_id eid
      then continue
      else if not (predicate ev)
      then continue
      else if ltb_ℤ (pos (length out')) cap
      then next
      else out'

  -- `_scan`
  unfoldable pub scan : Repo P → (Event P → Bool) → Option ℤ → ℤ → List (StoredEvent P)
  unfolding scan_loop sorted_items
  scan r predicate from_id limit =
      scan_loop predicate from_id (clamp_limit limit) (sorted_items r.events) []

  unfoldable pub find_by_workgraph : Repo P → String → Option ℤ → ℤ → List (StoredEvent P)
  unfolding scan
  find_by_workgraph r workgraph_id from_id limit = scan r (of_workgraph workgraph_id) from_id limit

  unfoldable pub find_by_task : Repo P → String → Option ℤ → ℤ → List (StoredEvent P)
  unfolding scan
  find_by_task r task_id from_id limit = scan r (of_task task_id) from_id limit

  -- `pred` of `find_filtered`
  unfoldable pub filter_pred : EventFilter → Event P → Bool
  filter_pred f ev =
      if differs f.workgraph_id ev.workgraph_id
      then false
      else if opt_differs f.task_id ev.task_id
      then false
      else if opt_differs f.agent_id ev.agent_id
      then false
      else if differs f.org_id ev.org_id
      then false
      else if differs f.type_ (event_type ev)
      then false
      else if differs f.type_namespace (before_dot (event_type ev))
      then false
      else true

  unfoldable pub find_filtered : Repo P → EventFilter → Option ℤ → ℤ → List (StoredEvent P)
  unfolding scan
  find_filtered r f from_id limit = scan r (filter_pred f) from_id limit

  -- `_matching`
  abbrev pub matching : (Event P → Bool) → Repo P → List (ℕ × Event P)
  matching test r = select (λ t. test t.1) r.events

  -- `max(m, key=lambda t: t[0])` of a list with the head `best`
  unfoldable pub max_item : ℕ × Event P → List (ℕ × Event P) → ℕ × Event P
  max_item best [] = best
  max_item best (x ∷ xs) = max_item (if ltb best.0 x.0 then x else best) xs

  -- the common body of `find_last_by_workgraph` and `find_last_by_task`
  unfoldable pub last_of : List (ℕ × Event P) → Option (StoredEvent P)
  unfolding max_item
  last_of [] = none
  last_of (x ∷ xs) = some (stored (max_item x xs))

  unfoldable pub find_last_by_workgraph : Repo P → String → Option (StoredEvent P)
  unfolding last_of
  find_last_by_workgraph r workgraph_id = last_of (matching (of_workgraph workgraph_id) r)

  unfoldable pub find_last_by_task : Repo P → String → Option (StoredEvent P)
  unfolding last_of
  find_last_by_task r task_id = last_of (matching (of_task task_id) r)

  unfoldable pub count_by_workgraph : Repo P → String → ℕ
  count_by_workgraph r workgraph_id = length (matching (of_workgraph workgraph_id) r)

  unfoldable pub count_by_task : Repo P → String → ℕ
  count_by_task r task_id = length (matching (of_task task_id) r)
