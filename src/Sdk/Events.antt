-- ===== src/Sdk/Events.antt =====
-- The event models that the SDK vendors: sdk/python/vfobs_sdk/events.py. A call of `datetime.now`
-- is the argument `now`.
pub mod Wire
pub mod SameWire
use mathlib.Core.Option
use vfobs.Prelude.{String, str_eq, Option, none, some, get_or, if◌then◌else◌}
use vfobs.Prelude.Int.{ℤ, pos}
use vfobs.Prelude.Result.{Result, ok, raise, Exception, validation_error}
use vfobs.Events.Platform.{Platform}

pub data Classification : Type 0 where
  public internal secret : Classification

pub record ClaimedData : Type 0 where
  pub claimed_by_agent_id : String

pub record HeartbeatData (P : Platform) : Type 0 where
  pub at : P.Datetime
  pub current_turn : Option ℤ

pub record ExecutionSummary (P : Platform) : Type 0 where
  pub num_turns : Option ℤ
  pub total_tokens : Option ℤ
  pub cost_usd : Option P.Float

pub record StateChangedData (P : Platform) : Type 0 where
  pub from_status : String
  pub to_status : String
  pub execution_summary : Option (ExecutionSummary P)

pub record TurnStartedData : Type 0 where
  pub turn_number : ℤ
  pub model : String
  pub prompt_tokens : Option ℤ

pub record TurnCompletedData : Type 0 where
  pub turn_number : ℤ
  pub completion_tokens : Option ℤ
  pub duration_ms : Option ℤ

pub record WorkdirChangedData : Type 0 where
  pub files_changed : ℤ
  pub commits : ℤ
  pub branch : Option String

-- The field `data` of the classes of events, a constructor for each class.
pub data EventData (P : Platform) : Type 0 where
  claimed : ClaimedData → EventData P
  heartbeat : HeartbeatData P → EventData P
  state_changed : StateChangedData P → EventData P
  turn_started : TurnStartedData → EventData P
  turn_completed : TurnCompletedData → EventData P
  workdir_changed : WorkdirChangedData → EventData P

-- The default of the field `type` of the class.
unfoldable pub type_of : {P : Platform} → EventData P → String
type_of (claimed d) = "task.claimed"
type_of (heartbeat d) = "task.heartbeat"
type_of (state_changed d) = "task.state_changed"
type_of (turn_started d) = "harness.turn_started"
type_of (turn_completed d) = "harness.turn_completed"
type_of (workdir_changed d) = "task.workdir_changed"

pub record Event (P : Platform) : Type 0 where
  pub v : ℤ
  pub type_ : String
  pub workgraph_id : String
  pub task_id : Option String
  pub agent_id : Option String
  pub trace_id : Option String
  pub source : String
  pub timestamp : P.Datetime
  pub classification : Classification
  pub org_id : String
  pub cluster_id : String
  pub event_data : EventData P

-- `**base`
pub record BaseKwargs : Type 0 where
  pub v : Option ℤ
  pub agent_id : Option String
  pub trace_id : Option String
  pub classification : Option Classification
  pub org_id : Option String
  pub cluster_id : Option String

module _ (P : Platform) (now : P.Datetime) where
  -- `_now`
  unfoldable pub or_now : Option P.Datetime → P.Datetime
  or_now ts = get_or ts now

  -- The constructor of a class: texts are stripped and defaults put in; then `min_length=1`.
  abbrev stripped : String → String → String → P.Datetime → EventData P → BaseKwargs → Event P
  stripped workgraph_id task_id source timestamp d base = record {
    v = get_or base.v (pos 1);
    type_ = type_of d;
    workgraph_id = P.strip workgraph_id;
    task_id = some (P.strip task_id);
    agent_id = Option.map P.strip base.agent_id;
    trace_id = Option.map P.strip base.trace_id;
    source = P.strip source;
    timestamp = timestamp;
    classification = get_or base.classification internal;
    org_id = get_or (Option.map P.strip base.org_id) "viloforge";
    cluster_id = get_or (Option.map P.strip base.cluster_id) "vafi-dev";
    event_data = d;
  }

  unfoldable pub new_event :
      String → String → String → P.Datetime → EventData P → BaseKwargs → Result Exception (Event P)
  unfolding type_of
  new_event workgraph_id task_id source timestamp d base =
      if str_eq (P.strip workgraph_id) ""
      then raise validation_error
      else if str_eq (P.strip source) ""
      then raise validation_error
      else ok (stripped workgraph_id task_id source timestamp d base)

  unfoldable pub task_claimed :
      String
      → String
      → String
      → String
      → Option P.Datetime
      → BaseKwargs
      → Result Exception (Event P)
  unfolding or_now new_event
  task_claimed workgraph_id task_id source claimed_by_agent_id timestamp base =
      new_event workgraph_id task_id source (or_now timestamp)
        (claimed (record { claimed_by_agent_id = claimed_by_agent_id })) base

  unfoldable pub task_heartbeat :
      String
      → String
      → String
      → Option ℤ
      → Option P.Datetime
      → BaseKwargs
      → Result Exception (Event P)
  unfolding or_now new_event
  task_heartbeat workgraph_id task_id source current_turn timestamp base =
      let at : P.Datetime = or_now timestamp in
      new_event workgraph_id task_id source at
        (heartbeat (record { at = at; current_turn = current_turn })) base

  unfoldable pub task_state_changed :
      String
      → String
      → String
      → String
      → String
      → Option (ExecutionSummary P)
      → Option P.Datetime
      → BaseKwargs
      → Result Exception (Event P)
  unfolding or_now new_event
  task_state_changed workgraph_id task_id source from_status to_status execution_summary timestamp
        base =
      new_event workgraph_id task_id source (or_now timestamp)
        (state_changed (record {
          from_status = from_status;
          to_status = to_status;
          execution_summary = execution_summary;
        }))
        base

  unfoldable pub harness_turn_started :
      String
      → String
      → String
      → ℤ
      → String
      → Option ℤ
      → Option P.Datetime
      → BaseKwargs
      → Result Exception (Event P)
  unfolding or_now new_event
  harness_turn_started workgraph_id task_id source turn_number model prompt_tokens timestamp base =
      new_event workgraph_id task_id source (or_now timestamp)
        (turn_started
          (record { turn_number = turn_number; model = model; prompt_tokens = prompt_tokens }))
        base

  unfoldable pub harness_turn_completed :
      String
      → String
      → String
      → ℤ
      → Option ℤ
      → Option ℤ
      → Option P.Datetime
      → BaseKwargs
      → Result Exception (Event P)
  unfolding or_now new_event
  harness_turn_completed workgraph_id task_id source turn_number completion_tokens duration_ms
        timestamp base =
      new_event workgraph_id task_id source (or_now timestamp)
        (turn_completed (record {
          turn_number = turn_number;
          completion_tokens = completion_tokens;
          duration_ms = duration_ms;
        }))
        base

  unfoldable pub task_workdir_changed :
      String
      → String
      → String
      → ℤ
      → ℤ
      → Option String
      → Option P.Datetime
      → BaseKwargs
      → Result Exception (Event P)
  unfolding or_now new_event
  task_workdir_changed workgraph_id task_id source files_changed commits branch timestamp base =
      new_event workgraph_id task_id source (or_now timestamp)
        (workdir_changed
          (record { files_changed = files_changed; commits = commits; branch = branch }))
        base
