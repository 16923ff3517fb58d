-- ===== src/Events/Factory.antt =====
-- `EventFactory` of src/vfobs/events/factory.py. A method's `_now()` is the argument `now`; a
-- datetime is never false, so `timestamp or _now()` asks only whether one was given.
pub mod WorkgraphEvents
pub mod TaskEvents
pub mod HarnessEvents
pub mod GateEvents
pub mod Calls
pub mod Called
pub mod Made
use vfobs.Prelude.{String, str_eq, Option, some, none, List, get_or, if◌then◌else◌}
use vfobs.Prelude.Int.{ℤ}
use vfobs.Prelude.Result.{Result, ok, some_or, Exception, validation_error, ◌>>=◌}
use vfobs.Events.Platform.{Platform}
use vfobs.Events.Namespaces.{
  Payload, Decision, approved, changes_requested, rejected, ExecutionSummary,
}
use vfobs.Events.Base.{Classification, Event, Kwargs, new_event}

-- `**base`: what the methods pass on to the constructor of the event.
pub record BaseKwargs : Type 0 where
  pub v : Option ℤ
  pub agent_id : Option String
  pub trace_id : Option String
  pub classification : Option Classification
  pub org_id : Option String
  pub cluster_id : Option String

-- The keyword arguments of the constructor that a method calls.
abbrev pub kwargs_with :
    (P : Platform)
    → P.Datetime
    → String
    → Option String
    → String
    → Option P.Datetime
    → Payload P
    → BaseKwargs
    → Kwargs P
kwargs_with P now workgraph_id task_id source timestamp payload base = record {
  v = base.v;
  workgraph_id = workgraph_id;
  task_id = task_id;
  agent_id = base.agent_id;
  trace_id = base.trace_id;
  source = source;
  timestamp = get_or timestamp now;
  classification = base.classification;
  org_id = base.org_id;
  cluster_id = base.cluster_id;
  payload = payload;
}

-- The Literal type of `JudgeDecisionData.decision`.
unfoldable pub decision_of : String → Option Decision
decision_of s =
    if str_eq s "approved"
    then some approved
    else if str_eq s "changes_requested"
    then some changes_requested
    else if str_eq s "rejected"
    then some rejected
    else none

unfoldable pub decision_data :
    {P : Platform} → String → Option String → Result Exception (Payload P)
unfolding decision_of
decision_data decision notes = do
  d ← some_or validation_error (decision_of decision)
  ok (Payload.judge_decision (record { decision = d; notes = notes }))

module _ (P : Platform) (now : P.Datetime) where
  -- The call of an event's constructor.
  unfoldable pub create :
      String
      → Option String
      → String
      → Option P.Datetime
      → Payload P
      → BaseKwargs
      → Result Exception (Event P)
  unfolding new_event
  create workgraph_id task_id source timestamp payload base =
      new_event P (kwargs_with P now workgraph_id task_id source timestamp payload base)
