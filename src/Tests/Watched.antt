-- ===== src/Tests/Watched.antt =====
-- The watcher at concrete inputs.
use vfobs.Prelude.{
  ℕ, ◌-◌, ◌*◌, ◌≡◌, ◌⊎◌, refl, inl, true, false, String, str_eq, Option, none, some, List, [], ◌∷◌,
  ltb, leb, arith, if◌then◌else◌,
}
use vfobs.Prelude.Result.{ok, raise, read_unavailable}
use vfobs.Sdk.ReadClient.{StoredEventView, view}
use vfobs.Sdk.Watch.State.{is_terminal, Clock, WatchState, from_events, parse_ts}
use vfobs.Sdk.Watch.Rules.{Verdict, evaluate, evaluate_rule, default_rules, is_alert}
use vfobs.Sdk.Watch.Verdicts.{
  IsCrashed, IsStalled, IsLate, evaluate-default_rules, evaluate_terminal,
}
use vfobs.Sdk.Watch.History.{reaches_terminal, from_events_lem, from_events-AllParse}
use vfobs.Sdk.Watch.Latest.{OrderLaws, IsLatest}
use vfobs.Sdk.Watch.Unseen.{terminal_unseen}
use vfobs.Sdk.ReadClient.Complete.{Wire}
use vfobs.Repository.Log.{stored}
use vfobs.Events.Base.{event_type}
use vfobs.Tests.Data.{platform, claim, done}
use vfobs.Sdk.Watch.Loop.{
  Tick, watch_once, exit_code, watch_loop, watch_loop_first, watch_loop_unavailable,
}

-- Times are numbers of seconds; every text but "1" stands for the time 100.
abbrev clock : Clock
clock = record {
  Datetime = ℕ;
  Seconds = ℕ;
  from_iso = λ s. some (if str_eq s "1" then 1 else 100);
  has_tzinfo = λ d. true;
  in_utc = λ d. d;
  later = λ a b. ltb b a;
  since = λ a b. a - b;
  exceeds = λ a b. ltb b a;
  at_most = λ a b. leb a b;
  times = λ a b. a * b;
  zero_seconds = 0;
  rounded = λ a. "n";
  percent = λ a. "n";
}

clock-laws : OrderLaws clock
clock-laws = record {
  later_irrefl = λ a. ground arith;
  later_trans = λ a b c e f. ground (arith, e, f);
  later_asym = λ a b e. ground (arith, e);
}

abbrev status : String → Option String
status s = some s

abbrev event : String → String → String → StoredEventView String
event type_ timestamp payload = record {
  id = 1;
  type_ = type_;
  timestamp = timestamp;
  payload = payload;
}

abbrev events : List (StoredEventView String)
events = event "task.claimed" "1" "" ∷ event "task.heartbeat" "2" "" ∷ []

-- The task has made no progress since its claim, but it is alive.
abbrev state : WatchState clock
state = record {
  now = 110;
  claimed_at = some 1;
  last_heartbeat_at = some 100;
  last_workdir_change_at = none;
  terminal = false;
  task_timeout_s = 3600;
}

from_events_lem_example :
    (state.claimed_at ≡ some 1)
    × IsLatest clock (100 ∷ []) state.last_heartbeat_at
    × IsLatest clock [] state.last_workdir_change_at
    × (false ≡ reaches_terminal clock status events)
unfolding from_events parse_ts
from_events_lem_example = from_events_lem clock clock-laws status events 110 3600 state refl

times_parsed :
    (s : WatchState clock) × (from_events clock status events 110 3600 ≡ ok s)
    × (s.now ≡ 110)
    × (s.task_timeout_s ≡ 3600)
unfolding parse_ts
times_parsed = from_events-AllParse clock status events 110 3600 ((1, refl), ((100, refl), tt))

evaluate-default_rules_example :
    (IsCrashed clock state 120
      × ((evaluate clock state (default_rules clock 60 120 1)).level ≡ "CRASHED"))
    ⊎ ((¬ IsCrashed clock state 120)
        × IsStalled clock state 60 120
        × ((evaluate clock state (default_rules clock 60 120 1)).level ≡ "STALLED"))
    ⊎ ((¬ IsCrashed clock state 120)
        × (¬ IsStalled clock state 60 120)
        × IsLate clock state 1
        × ((evaluate clock state (default_rules clock 60 120 1)).level ≡ "APPROACHING_TIMEOUT"))
    ⊎ ((¬ IsCrashed clock state 120)
        × (¬ IsStalled clock state 60 120)
        × (¬ IsLate clock state 1)
        × ((evaluate clock state (default_rules clock 60 120 1)).level ≡ "OK"))
evaluate-default_rules_example = evaluate-default_rules clock state 60 120 1

abbrev over : WatchState clock
over = record state { terminal = true }

terminal_is_ok :
    evaluate clock over (default_rules clock 60 120 1)
    ≡ record { level = "OK"; reason = "terminal" }
terminal_is_ok = evaluate_terminal clock over (default_rules clock 60 120 1) refl

abbrev silence : Tick clock status
silence = record { events = raise read_unavailable; detail = "HTTP 503"; now = 105 }

abbrev alert : Tick clock status
alert = record { events = ok events; detail = ""; now = 110 }

abbrev stalled : Verdict
stalled = record { level = "STALLED"; reason = "alive (hb ns) but no workdir progress for ns" }

watch_loop_first_example :
    watch_loop clock status (default_rules clock 60 120 1) 3600 false (alert ∷ silence ∷ [])
    ≡ some (ok 2)
unfolding watch_once exit_code from_events parse_ts evaluate default_rules is_alert evaluate_rule
watch_loop_first_example =
    watch_loop_first clock status (default_rules clock 60 120 1) 3600 false [] (silence ∷ []) alert
      stalled tt refl (inl refl)

watch_loop_unavailable_example :
    (watch_loop clock status (default_rules clock 60 120 1) 3600 false (silence ∷ alert ∷ [])
      ≡ watch_loop clock status (default_rules clock 60 120 1) 3600 false (alert ∷ []))
    × (watch_loop clock status (default_rules clock 60 120 1) 3600 true (silence ∷ alert ∷ [])
        ≡ some (ok 0))
watch_loop_unavailable_example =
    watch_loop_unavailable clock status (default_rules clock 60 120 1) 3600 [] (alert ∷ []) silence
      refl

abbrev over_wire : Wire platform String
over_wire = record { iso = λ at. "1"; dump = λ d. none }

abbrev no_status : String → Option String
no_status s = none

-- The task is done, and the watcher does not see it.
abbrev unseen : WatchState clock
unseen = record {
  now = 110;
  claimed_at = some 1;
  last_heartbeat_at = none;
  last_workdir_change_at = none;
  terminal = false;
  task_timeout_s = 3600;
}

terminal_unseen_example : unseen.terminal ≡ false
unfolding from_events parse_ts view event_type is_terminal
terminal_unseen_example =
    terminal_unseen over_wire "{}" no_status clock clock-laws
      (stored (1, claim) ∷ stored (2, done) ∷ []) 110 3600 unseen (λ d. refl) refl refl
