-- ===== src/Sdk/ReadClient.antt =====
-- `ReadClient` of sdk/python/vfobs_sdk/read_client.py.
pub mod Complete
use mathlib.Core.Option
use vfobs.Prelude.{ℕ, zero, suc, String, Option, none, some, List, [], ◌++◌, map, get_or}
use vfobs.Prelude.Int.{ℤ}
use vfobs.Prelude.Result.{Result, ok, raise, Exception, read_unavailable}

module _ (Data : Type 0) where
  pub record StoredEventView : Type 0 where
    pub id : ℕ
    pub type_ : String
    pub timestamp : String
    pub payload : Data

  -- An element of `body["events"]`: `{"id": …, "event": {…}}`, where `data` may be missing.
  pub record EventBody : Type 0 where
    pub id : ℕ
    pub type_ : String
    pub timestamp : String
    pub payload : Option Data

  -- The body of a response: `events` and `next_from_id`.
  pub record PageBody : Type 0 where
    pub events : List EventBody
    pub next_from_id : Option ℤ

-- One GET of a task's events with the parameters `from_id` and `limit`. It raises where the
-- connection fails, where the status is an error and where the body has another shape.
abbrev pub Fetch : Type 0 → Type 0
Fetch Data = Option ℤ → ℤ → Result Exception (PageBody Data)

module _ {Data : Type 0} (empty : Data) where
  unfoldable pub view : EventBody Data → StoredEventView Data
  view b = record {
    id = b.id;
    type_ = b.type_;
    timestamp = b.timestamp;
    payload = get_or b.payload empty;
  }

  -- The loop of `task_events`, with fuel for its rounds; None means that the fuel ran out.
  unfoldable pub task_events_loop :
      ℕ
      → Fetch Data
      → ℤ
      → Option ℤ
      → List (StoredEventView Data)
      → Option (Result Exception (List (StoredEventView Data)))
  unfolding view
  task_events_loop zero fetch page_limit from_id out = none
  task_events_loop (suc fuel) fetch page_limit from_id out = elim (fetch from_id page_limit) [
    | raise e ↦ some (raise read_unavailable)
    | ok body ↦
        let out' = out ++ map view body.events in
        elim body.next_from_id [
          | none ↦ some (ok out')
          | some nxt ↦ task_events_loop fuel fetch page_limit (some nxt) out'
        ]
  ]

  -- `task_events`
  unfoldable pub task_events :
      ℕ → Fetch Data → ℤ → Option (Result Exception (List (StoredEventView Data)))
  unfolding task_events_loop
  task_events fuel fetch page_limit = task_events_loop fuel fetch page_limit none []
