-- ===== src/Tests/Made.antt =====
-- The factory, the SDK's events, the query builder, the partitions and the wiring at concrete inputs.
use vfobs.Prelude.{
  ◌≡◌, ◌⊎◌, refl, String, str_eq, false, Option, none, some, List, [], ◌∷◌, if◌then◌else◌, length,
  select, arith,
}
use vfobs.Prelude.Dict
use vfobs.Prelude.Int.{ℤ, pos}
use vfobs.Prelude.Result.{ok, raise, validation_error, http_exception, ◌>>=◌}
use vfobs.Events.Platform.{StripLaws}
use vfobs.Events.Factory as Factory
use vfobs.Events.Factory.{BaseKwargs}
use vfobs.Events.Factory.Calls.{Call, Common, make}
use vfobs.Events.Factory.Made.{make-refused}
use vfobs.Events.Json.{event_json}
use vfobs.Sdk.Events as Sdk
use vfobs.Sdk.Events.Wire.{SdkCall, SdkCommon, sdk_make, sdk_json, server_common}
use vfobs.Sdk.Events.SameWire.{sdk_make-make}
use vfobs.Api.Reads.{EventQuery}
use vfobs.Api.Query.{Pydantic, build_event_query, dict_of}
use vfobs.Api.Query.Meant.{IsQueryOf}
use vfobs.Api.Query.Built.{IsInRange, IsPage, build_event_query-IsPage}
use vfobs.Schema.{Date, Partition, upgrade_partitions, takes}
use vfobs.Schema.Months.{upgrade_partitions_lem}
use vfobs.App.{Parts, AppState, create_app, start}
use vfobs.App.Wired.{IsWired, start-IsWired}
use vfobs.Tests.Data.{platform, contract, repo, repo-IsWf}

pub made-laws : StripLaws platform
made-laws = record { strip_idem = λ s. refl; strip_org = refl; strip_cluster = refl }

abbrev no_base : BaseKwargs
no_base = record {
  v = none;
  agent_id = some "a1";
  trace_id = none;
  classification = none;
  org_id = none;
  cluster_id = none;
}

abbrev common : Common platform
common = record { workgraph_id = "w1"; source = "judge"; timestamp = none; base = no_base }

maybe_refused :
    make platform 70 (Call.judge_decision "t1" "maybe" none) common ≡ raise validation_error
unfolding Factory.decision_of
maybe_refused = make-refused made-laws 70 (Call.judge_decision "t1" "maybe" none) common refl

abbrev pub sdk_common : SdkCommon platform
sdk_common = record {
  workgraph_id = "w1";
  task_id = "t1";
  source = "agent";
  timestamp = none;
  base = record {
    v = none;
    agent_id = none;
    trace_id = some "x";
    classification = some Sdk.secret;
    org_id = none;
    cluster_id = none;
  };
}

sdk_make-make_example :
    (sdk_make platform 70 (SdkCall.task_heartbeat (some (pos 3))) sdk_common >>= λ e.
    ok (sdk_json e))
    ≡ (make platform 70 (Call.task_heartbeat "t1" none (some (pos 3))) (server_common sdk_common)
        >>= λ e. ok (event_json e))
sdk_make-make_example =
    sdk_make-make 70 (SdkCall.task_heartbeat (some (pos 3))) sdk_common none refl

abbrev digit : String → Option ℤ
digit s = if str_eq s "2" then some (pos 2) else none

abbrev pub pydantic : Pydantic
pydantic = record { parse_int = digit; takes_both = false; detail = λ raw. "invalid" }

abbrev url_params : List (String × String)
url_params = ("agent_id", "a1") ∷ ("from_id", "2") ∷ ("limit", "2") ∷ []

build_event_query-IsPage_example :
    ((build_event_query pydantic url_params
        ≡ raise (http_exception 422 (pydantic.detail (dict_of [] url_params))))
      × ((q : EventQuery) → ¬ IsQueryOf pydantic url_params q))
    ⊎ ((q : EventQuery) × (build_event_query pydantic url_params ≡ ok q)
        × IsQueryOf pydantic url_params q
        × IsInRange q
        × IsPage contract repo q)
build_event_query-IsPage_example =
    build_event_query-IsPage contract pydantic repo url_params repo-IsWf

-- These parameters build a query, and an unknown name is refused.
built :
    build_event_query pydantic url_params
    ≡ ok (record {
      workgraph_id = none;
      task_id = none;
      agent_id = some "a1";
      type_ = none;
      type_namespace = none;
      org_id = "viloforge";
      from_id = some (pos 2);
      limit = pos 2;
    })
unfolding build_event_query Dict.set
built = refl

refused_query :
    build_event_query pydantic (("page", "2") ∷ []) ≡ raise (http_exception 422 "invalid")
unfolding build_event_query Dict.set
refused_query = refl

abbrev today : Date
today = record { year = 2026; month = 11; day = 26 }

abbrev next_year : Date
next_year = record { year = 2027; month = 2; day = 1 }

-- The three months end with January 2027.
upgrade_partitions_example :
    (ps : List Partition) × (upgrade_partitions today ≡ ok ps)
    × (length (select (takes next_year) ps) ≡ 0)
upgrade_partitions_example =
    upgrade_partitions_lem today next_year
      (record { month_low = omega arith; month_high = omega arith; day_low = omega arith })
      (omega arith)
      (record { month_low = omega arith; month_high = omega arith; day_low = omega arith })

abbrev parts : Parts
parts = record {
  Url = String;
  Engine = Unit;
  Repository = Unit;
  IngestAuth = Unit;
  ReadAuth = String;
  Client = String;
  postgres = λ e. e;
  static_token = tt;
  token_auth = λ c. c;
  connect = λ u. u;
}

start-IsWired_example :
    (s : AppState parts) × (start parts tt none (create_app parts (some tt) none none none) ≡ ok s)
    × IsWired tt none (create_app parts (some tt) none none none) s
start-IsWired_example = start-IsWired tt none (create_app parts (some tt) none none none)
