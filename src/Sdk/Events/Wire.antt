-- ===== src/Sdk/Events/Wire.antt =====
-- The JSON that `HttpEmitter` posts, `event.model_dump(mode="json")` of the SDK's events, against the
-- JSON of the server's own events.
use mathlib.Core.Option
use vfobs.Prelude.{String, Option}
use vfobs.Prelude.Int.{ℤ}
use vfobs.Prelude.Result.{Result, Exception}
use vfobs.Events.Platform.{Platform}
use vfobs.Events.Base as Base
use vfobs.Events.Base.{event_type, fields_of}
use vfobs.Events.Namespaces as Namespaces
use vfobs.Events.Namespaces.{class_of}
use vfobs.Events.Factory.Calls.{Call, Common}
use vfobs.Events.Json.{Json, object, member, done, int, str, time, opt, summary_members}
use vfobs.Sdk.Events as Sdk
use vfobs.Sdk.Events.{
  Classification, internal, secret, ExecutionSummary, EventData, claimed, heartbeat, state_changed,
  turn_started, turn_completed, workdir_changed, Event, BaseKwargs, type_of, new_event, or_now,
}

abbrev pub sdk_classification_text : Classification → String
sdk_classification_text Classification.public = "public"
sdk_classification_text internal = "internal"
sdk_classification_text secret = "secret"

module _ {P : Platform} where
  abbrev summary : ExecutionSummary P → Json P
  summary s = summary_members s.num_turns s.total_tokens s.cost_usd

  abbrev pub sdk_data_json : EventData P → Json P
  sdk_data_json (claimed d) = object (member "claimed_by_agent_id" (str d.claimed_by_agent_id) done)
  sdk_data_json (heartbeat d) =
      object (member "at" (time d.at) (member "current_turn" (opt int d.current_turn) done))
  sdk_data_json (state_changed d) = object (
      member "from_status" (str d.from_status) (
        member "to_status" (str d.to_status)
          (member "execution_summary" (opt summary d.execution_summary) done)))
  sdk_data_json (turn_started d) = object (
      member "turn_number" (int d.turn_number)
        (member "model" (str d.model) (member "prompt_tokens" (opt int d.prompt_tokens) done)))
  sdk_data_json (turn_completed d) = object (
      member "turn_number" (int d.turn_number) (
        member "completion_tokens" (opt int d.completion_tokens)
          (member "duration_ms" (opt int d.duration_ms) done)))
  sdk_data_json (workdir_changed d) = object (
      member "files_changed" (int d.files_changed)
        (member "commits" (int d.commits) (member "branch" (opt str d.branch) done)))

  -- What is posted.
  unfoldable pub sdk_json : Event P → Json P
  sdk_json e = object (
      member "v" (int e.v) (
        member "type" (str e.type_) (
          member "workgraph_id" (str e.workgraph_id) (
            member "task_id" (opt str e.task_id) (
              member "agent_id" (opt str e.agent_id) (
                member "trace_id" (opt str e.trace_id) (
                  member "source" (str e.source) (
                    member "timestamp" (time e.timestamp) (
                      member "classification" (str (sdk_classification_text e.classification)) (
                        member "org_id" (str e.org_id) (
                          member "cluster_id" (str e.cluster_id)
                            (member "data" (sdk_data_json e.event_data) done))))))))))))

-- A call of an SDK constructor, but for what all of them have.
pub data SdkCall (P : Platform) : Type 0 where
  task_claimed : String → SdkCall P
  task_heartbeat : Option ℤ → SdkCall P
  task_state_changed : String → String → Option (ExecutionSummary P) → SdkCall P
  harness_turn_started : ℤ → String → Option ℤ → SdkCall P
  harness_turn_completed : ℤ → Option ℤ → Option ℤ → SdkCall P
  task_workdir_changed : ℤ → ℤ → Option String → SdkCall P

-- What all of them have.
pub record SdkCommon (P : Platform) : Type 0 where
  pub workgraph_id : String
  pub task_id : String
  pub source : String
  pub timestamp : Option P.Datetime
  pub base : BaseKwargs

module _ (P : Platform) (now : P.Datetime) where
  unfoldable pub sdk_make : SdkCall P → SdkCommon P → Result Exception (Event P)
  unfolding Sdk.task_claimed Sdk.task_heartbeat Sdk.task_state_changed Sdk.harness_turn_started
      Sdk.harness_turn_completed Sdk.task_workdir_changed
  sdk_make (task_claimed claimed_by_agent_id) c =
      Sdk.task_claimed P now c.workgraph_id c.task_id c.source claimed_by_agent_id c.timestamp
        c.base
  sdk_make (task_heartbeat current_turn) c =
      Sdk.task_heartbeat P now c.workgraph_id c.task_id c.source current_turn c.timestamp c.base
  sdk_make (task_state_changed from_status to_status execution_summary) c =
      Sdk.task_state_changed P now c.workgraph_id c.task_id c.source from_status to_status
        execution_summary c.timestamp c.base
  sdk_make (harness_turn_started turn_number model prompt_tokens) c =
      Sdk.harness_turn_started P now c.workgraph_id c.task_id c.source turn_number model
        prompt_tokens c.timestamp c.base
  sdk_make (harness_turn_completed turn_number completion_tokens duration_ms) c =
      Sdk.harness_turn_completed P now c.workgraph_id c.task_id c.source turn_number
        completion_tokens duration_ms c.timestamp c.base
  sdk_make (task_workdir_changed files_changed commits branch) c =
      Sdk.task_workdir_changed P now c.workgraph_id c.task_id c.source files_changed commits branch
        c.timestamp c.base

abbrev pub server_classification : Classification → Base.Classification
server_classification Classification.public = Base.Classification.public
server_classification internal = Base.Classification.internal
server_classification secret = Base.Classification.secret

module _ {P : Platform} where
  -- The same arguments for the server's factory. Its method for a heartbeat has one more, the keyword
  -- argument `at`, which the SDK's constructor has not.
  abbrev pub server_summary : ExecutionSummary P → Namespaces.ExecutionSummary P
  server_summary s = record {
    num_turns = s.num_turns;
    total_tokens = s.total_tokens;
    cost_usd = s.cost_usd;
  }

  abbrev pub server_call : SdkCommon P → Option P.Datetime → SdkCall P → Call P
  server_call c at (task_claimed claimed_by_agent_id) =
      Call.task_claimed c.task_id claimed_by_agent_id
  server_call c at (task_heartbeat current_turn) = Call.task_heartbeat c.task_id at current_turn
  server_call c at (task_state_changed from_status to_status execution_summary) =
      Call.task_state_changed c.task_id from_status to_status
        (Option.map server_summary execution_summary)
  server_call c at (harness_turn_started turn_number model prompt_tokens) =
      Call.harness_turn_started c.task_id turn_number model prompt_tokens
  server_call c at (harness_turn_completed turn_number completion_tokens duration_ms) =
      Call.harness_turn_completed c.task_id turn_number completion_tokens duration_ms
  server_call c at (task_workdir_changed files_changed commits branch) =
      Call.task_workdir_changed c.task_id files_changed commits branch

  abbrev pub server_common : SdkCommon P → Common P
  server_common c = record {
    workgraph_id = c.workgraph_id;
    source = c.source;
    timestamp = c.timestamp;
    base = record {
      v = c.base.v;
      agent_id = c.base.agent_id;
      trace_id = c.base.trace_id;
      classification = Option.map server_classification c.base.classification;
      org_id = c.base.org_id;
      cluster_id = c.base.cluster_id;
    };
  }
