-- ===== src/Tests/Ingested.antt =====
-- The ingest endpoint, the delivery of an emitter's events to it, and the middleware around it, at
-- concrete inputs.
use mathlib.Core.List.{Sublist}
use vfobs.Prelude.{
  ◌≡◌, ◌≢◌, eq_iff, ◌⊎◌, refl, arith, String, true, false, Option, none, some, List, [], ◌∷◌, map,
}
use vfobs.Prelude.Int.{ℤ, pos}
use vfobs.Prelude.Result.{ok, raise, Exception, validation_error}
use vfobs.Events.Base.{Event, new_event}
use vfobs.Events.Namespaces.{execution_summary_of}
use vfobs.Events.Json.{Json, str, int, float, time, object, member, done as end, event_json}
use vfobs.Events.Fields.{Scalars, ScalarLaws, as_object, text_of, get_member}
use vfobs.Events.Classes.{type_has_known_namespace}
use vfobs.Api.Body.{union_get}
use vfobs.Api.Body.Data.{parse_event, data_members}
use vfobs.Api.Body.Accepted.{IsAccepted}
use vfobs.Api.Body.RoundTrip.{parse_event-event_json, has_finite_data}
use vfobs.Api.Auth.{is_ascii}
use vfobs.Repository.Memory.{Repo}
use vfobs.Api.Ingest.{ingest, ingest-cases, IsStored, Refusal}
use vfobs.Sdk.Events as Sdk
use vfobs.Sdk.Events.Wire.{SdkCall, sdk_make}
use vfobs.Sdk.Emitter.{Input, emitted, scheduled, closing, after}
use vfobs.Sdk.Emitter.Drains.{rounds}
use vfobs.Delivery.{SdkEvent, is_finite_call, post_body, deliver, arrived}
use vfobs.Delivery.ReadBack.{read_back, seen, sent}
use vfobs.Sdk.ReadClient.{StoredEventView, task_events}
use vfobs.Sdk.ReadClient.Complete.{Wire, served}
use vfobs.Repository.Memory.Sorted.{IsWf}
use vfobs.Delivery.Logged.{IsLogged, arrived-IsLogged, rounds-IsLogged}
use vfobs.Tests.Data.{platform, repo, repo-IsWf, done, R, contract}
use vfobs.Tests.Guarded.{hmac, hmac-laws, secret}
use vfobs.Tests.Made.{made-laws, sdk_common}

-- Validators that convert nothing.
abbrev pub read_str : Json platform → Option String
read_str (str s) = some s
read_str _ = none

abbrev pub read_int : Json platform → Option ℤ
read_int (int i) = some i
read_int _ = none

abbrev pub scalars : Scalars platform
scalars = record {
  as_str = read_str;
  as_int = read_int;
  as_float = λ j. elim j [ float x ↦ some x | _ ↦ none ];
  as_datetime = λ j. elim j [ time d ↦ some d | _ ↦ none ];
  is_finite = λ x. true;
}

pub scalar-laws : ScalarLaws scalars
scalar-laws = record {
  as_str-str = λ s. refl;
  as_int-int = λ i. refl;
  as_float-float = λ x h. refl;
  as_datetime-time = λ d. refl;
}

parse_event-event_json_example : parse_event scalars (event_json done) ≡ ok done
unfolding has_finite_data execution_summary_of new_event
parse_event-event_json_example = parse_event-event_json scalars scalar-laws done refl refl

pub secret-ascii : is_ascii secret ≡ true
unfolding is_ascii
secret-ascii = refl

secret-ne : secret ≢ ""
secret-ne e = absurd (cc ((eq_iff secret "").1 e))

-- A body without data.
abbrev pub no_event : Json platform
no_event = object (member "type" (str "task.claimed") end)

ingest-cases_example :
    ((e : Exception) × (ingest R hmac scalars secret repo (some secret) no_event ≡ (raise e, repo))
      × Refusal contract hmac hmac-laws scalars made-laws secret secret-ascii
          (some secret)
          no_event
          e)
    ⊎ ((e : Event platform) × (some secret ≡ some secret)
        × (parse_event scalars no_event ≡ ok e)
        × IsAccepted scalars no_event e
        × IsStored contract repo e (ingest R hmac scalars secret repo (some secret) no_event))
ingest-cases_example =
    ingest-cases contract hmac hmac-laws scalars made-laws secret secret-ascii repo (some secret)
      no_event repo-IsWf

-- An event of the SDK.
abbrev heartbeat : Sdk.Event platform
heartbeat = record {
  v = pos 1;
  type_ = "task.heartbeat";
  workgraph_id = "w1";
  task_id = some "t1";
  agent_id = none;
  trace_id = some "x";
  source = "agent";
  timestamp = 70;
  classification = Sdk.secret;
  org_id = "viloforge";
  cluster_id = "vafi-dev";
  event_data = Sdk.heartbeat (record { at = 70; current_turn = some (pos 3) });
}

heartbeat_made :
    sdk_make platform 70 (SdkCall.task_heartbeat (some (pos 3))) sdk_common ≡ ok heartbeat
unfolding sdk_make
heartbeat_made = refl

heartbeat_finite : is_finite_call scalars (SdkCall.task_heartbeat (some (pos 3))) ≡ true
unfolding is_finite_call
heartbeat_finite = refl

abbrev beat : SdkEvent scalars
beat = record {
  event = heartbeat;
  now = 70;
  call = SdkCall.task_heartbeat (some (pos 3));
  common = sdk_common;
  made = heartbeat_made;
  finite = heartbeat_finite;
}

-- The drain task posts one event and has one more.
abbrev beats : List (Input (SdkEvent scalars))
beats = scheduled false ∷ emitted true beat ∷ emitted true beat ∷ []

abbrev Logged : List (SdkEvent scalars) → Repo platform → Type 0
Logged = IsLogged contract hmac hmac-laws scalars scalar-laws made-laws secret repo

abbrev delivered : List (SdkEvent scalars) → Repo platform
delivered = deliver scalars R hmac (post_body scalars) secret (some secret) repo

arrived-IsLogged_example :
    (posts : List (SdkEvent scalars)) × Sublist posts (beat ∷ beat ∷ [])
    × Logged posts (delivered (arrived (false ∷ []) (after 5 beats).posts))
arrived-IsLogged_example =
    arrived-IsLogged contract hmac hmac-laws scalars scalar-laws made-laws secret secret-ascii
      secret-ne 5 beats repo repo-IsWf (false ∷ [])

rounds-IsLogged_example :
    Logged
      (beat ∷ beat ∷ [])
      (delivered (rounds 5 (false ∷ true ∷ false ∷ []) (after 5 (closing ∷ beats))).posts)
unfolding after
rounds-IsLogged_example =
    rounds-IsLogged contract hmac hmac-laws scalars scalar-laws made-laws secret secret-ascii
      secret-ne 5 beats repo repo-IsWf (false ∷ true ∷ false ∷ []) tt (omega arith) (omega arith)

wire : Wire platform String
wire = record { iso = λ at. "2026-01-01T00:00:00Z"; dump = λ d. none }

-- A new server.
abbrev new_repo : Repo platform
new_repo = record { events = []; next_id = 1 }

new_repo-IsWf : IsWf new_repo
new_repo-IsWf = record { ascends = omega arith }

read_back_example :
    (views : List (StoredEventView String)) × (task_events "{}" 3
        (served wire R
          (deliver scalars R hmac
            (post_body scalars)
            secret
            (some secret)
            new_repo
            (rounds 5 (false ∷ true ∷ false ∷ []) (after 5 (closing ∷ beats))).posts)
          "t1")
        (pos 1)
      ≡ some (ok views))
    × (map seen views ≡ map (sent scalars wire.iso) (beat ∷ beat ∷ []))
unfolding after
read_back_example =
    read_back contract hmac hmac-laws scalars scalar-laws made-laws secret secret-ascii secret-ne 5
      beats new_repo new_repo-IsWf refl wire "{}" (false ∷ true ∷ false ∷ []) "t1" (pos 1) 3 tt
      (omega arith) (omega arith) (omega arith)

no_event_refused : parse_event scalars no_event ≡ raise validation_error
unfolding parse_event as_object text_of get_member union_get type_has_known_namespace data_members
no_event_refused = refl
