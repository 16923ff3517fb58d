-- ===== src/Sdk/Events/SameWire.antt =====
-- The events that the SDK posts are those of the server's own factory.
use mathlib.Core.Option
use vfobs.Prelude.{◌≡◌, refl, String, str_eq, Option, none, some, Bool-cases, inl, inr, get_or}
use vfobs.Prelude.Result.{ok, ◌>>=◌}
use vfobs.Events.Platform.{Platform}
use vfobs.Events.Base as Base
use vfobs.Events.Base.{event_type}
use vfobs.Events.Namespaces.{Payload, class_of}
use vfobs.Events.Classes.{type_value}
use vfobs.Events.Factory.{create}
use vfobs.Events.Factory.Calls.{make}
use vfobs.Events.Json.{payload_json, event_json, event_members}
use vfobs.Events.Values.{classification_value}
use vfobs.Sdk.Events.{
  Classification, internal, secret, EventData, claimed, heartbeat, state_changed, turn_started,
  turn_completed, workdir_changed, ExecutionSummary, type_of, new_event, or_now,
}
use vfobs.Sdk.Events.Wire.{
  SdkCall, SdkCommon, sdk_json, sdk_data_json, sdk_classification_text, sdk_make, server_call,
  server_common, server_classification, server_summary, task_claimed, task_heartbeat,
  task_state_changed, harness_turn_started, harness_turn_completed, task_workdir_changed,
}

classification_lem :
    (o : Option Classification)
    → sdk_classification_text (get_or o internal)
      ≡ classification_value (get_or (Option.map server_classification o) Base.internal)
classification_lem none = refl
classification_lem (some Classification.public) = refl
classification_lem (some internal) = refl
classification_lem (some secret) = refl

module _ {P : Platform} (now : P.Datetime) where
  new_event_lem :
      (c : SdkCommon P) (d : EventData P) (p : Payload P)
      → type_of d ≡ type_value (class_of p)
      → sdk_data_json d ≡ payload_json p
      → (new_event P now c.workgraph_id c.task_id c.source (get_or c.timestamp now) d c.base
          >>= λ e. ok (sdk_json e))
        ≡ (create P now c.workgraph_id
              (some c.task_id)
              c.source
              c.timestamp
              p
              (server_common c).base
            >>= λ e. ok (event_json e))
  unfolding new_event create Base.new_event Base.fields_of sdk_json event_json event_members
      event_type
  new_event_lem c d p t j = elim (Bool-cases (str_eq (P.strip c.workgraph_id) "")) [
    | inl w ↦ rw (new_event, create, w) refl
    | inr w ↦ elim (Bool-cases (str_eq (P.strip c.source) "")) [
      | inl s ↦ rw (new_event, create, w, s) refl
      | inr s ↦ rw (new_event, create, w, s, t, j, classification_lem c.base.classification) refl
    ]
  ]

  summary_lem :
      (c : SdkCommon P) (from_status to_status : String) (o : Option (ExecutionSummary P))
      → sdk_data_json (
          state_changed
            (record { from_status = from_status; to_status = to_status; execution_summary = o }))
        ≡ payload_json (
            Payload.task_state_changed (record {
              from_status = from_status;
              to_status = to_status;
              execution_summary = Option.map server_summary o;
            }))
  summary_lem c from_status to_status none = refl
  summary_lem c from_status to_status (some s) = refl

  -- The data of the two events.
  abbrev sdk_data : SdkCommon P → SdkCall P → EventData P
  sdk_data c (task_claimed claimed_by_agent_id) =
      claimed (record { claimed_by_agent_id = claimed_by_agent_id })
  sdk_data c (task_heartbeat current_turn) =
      heartbeat (record { at = get_or c.timestamp now; current_turn = current_turn })
  sdk_data c (task_state_changed from_status to_status execution_summary) = state_changed (record {
    from_status = from_status;
    to_status = to_status;
    execution_summary = execution_summary;
  })
  sdk_data c (harness_turn_started turn_number model prompt_tokens) =
      turn_started
        (record { turn_number = turn_number; model = model; prompt_tokens = prompt_tokens })
  sdk_data c (harness_turn_completed turn_number completion_tokens duration_ms) =
      turn_completed (record {
        turn_number = turn_number;
        completion_tokens = completion_tokens;
        duration_ms = duration_ms;
      })
  sdk_data c (task_workdir_changed files_changed commits branch) =
      workdir_changed (record { files_changed = files_changed; commits = commits; branch = branch })

  abbrev server_data : Option P.Datetime → SdkCall P → Payload P
  server_data at (task_claimed claimed_by_agent_id) =
      Payload.task_claimed (record { claimed_by_agent_id = claimed_by_agent_id })
  server_data at (task_heartbeat current_turn) =
      Payload.task_heartbeat (record { at = get_or at now; current_turn = current_turn })
  server_data at (task_state_changed from_status to_status execution_summary) =
      Payload.task_state_changed (record {
        from_status = from_status;
        to_status = to_status;
        execution_summary = Option.map server_summary execution_summary;
      })
  server_data at (harness_turn_started turn_number model prompt_tokens) =
      Payload.harness_turn_started
        (record { turn_number = turn_number; model = model; prompt_tokens = prompt_tokens })
  server_data at (harness_turn_completed turn_number completion_tokens duration_ms) =
      Payload.harness_turn_completed (record {
        turn_number = turn_number;
        completion_tokens = completion_tokens;
        duration_ms = duration_ms;
      })
  server_data at (task_workdir_changed files_changed commits branch) =
      Payload.task_workdir_changed
        (record { files_changed = files_changed; commits = commits; branch = branch })

  -- For every constructor of the SDK and all arguments, with any `at` for the factory's heartbeat that
  -- comes to the same time as the timestamp, where None stands for now: what `HttpEmitter` posts of the
  -- SDK's event is, field for field, the JSON of the event that the server's `EventFactory` makes of the
  -- same arguments, and the one refuses exactly what the other does.
  pub sdk_make-make :
      (call : SdkCall P) (c : SdkCommon P) (at : Option P.Datetime)
      → get_or at now ≡ get_or c.timestamp now
      → (sdk_make P now call c >>= λ e. ok (sdk_json e))
        ≡ (make P now (server_call c at call) (server_common c) >>= λ e. ok (event_json e))
  unfolding sdk_make make type_of type_value class_of or_now
  sdk_make-make (task_state_changed x y o) c at h =
      let call = task_state_changed x y o in
      new_event_lem c (sdk_data c call) (server_data at call) refl (summary_lem c x y o)
  sdk_make-make (task_claimed a) c at h =
      let call = task_claimed a in new_event_lem c (sdk_data c call) (server_data at call) refl refl
  sdk_make-make (task_heartbeat a) c at h =
      let call = task_heartbeat a in
      new_event_lem c (sdk_data c call) (server_data at call) refl (rw h refl)
  sdk_make-make (harness_turn_started a b k) c at h =
      let call = harness_turn_started a b k in
      new_event_lem c (sdk_data c call) (server_data at call) refl refl
  sdk_make-make (harness_turn_completed a b k) c at h =
      let call = harness_turn_completed a b k in
      new_event_lem c (sdk_data c call) (server_data at call) refl refl
  sdk_make-make (task_workdir_changed a b k) c at h =
      let call = task_workdir_changed a b k in
      new_event_lem c (sdk_data c call) (server_data at call) refl refl
