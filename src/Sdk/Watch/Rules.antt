-- ===== src/Sdk/Watch/Rules.antt =====
-- The anomaly rules and `evaluate` of sdk/python/vfobs_sdk/watch.py.
use Prim.Native.String.{◌++◌ as str_append}
use vfobs.Prelude.{
  String, str_eq, Bool, true, false, not, Option, none, some, List, [], ◌∷◌, if◌then◌else◌,
}
use vfobs.Sdk.Watch.State.{Clock, WatchState}

pub record Verdict : Type 0 where
  pub level : String
  pub reason : String

unfoldable pub is_alert : Verdict → Bool
is_alert v = not (str_eq v.level "OK")

module _ (K : Clock) where
  -- The subclasses of `AnomalyRule` with the arguments of their constructors.
  pub data AnomalyRule : Type 0 where
    crashed : K.Seconds → AnomalyRule
    stall : K.Seconds → K.Seconds → AnomalyRule
    approaching_timeout : K.Seconds → AnomalyRule

  unfoldable pub verdict : String → String → Option Verdict
  verdict level reason = some (record { level = level; reason = reason })

  -- `Crashed.evaluate`
  unfoldable pub evaluate_crashed :
      K.Seconds → Bool → Option K.Datetime → K.Datetime → Option Verdict
  unfolding verdict
  evaluate_crashed crash true hb now = none
  evaluate_crashed crash false none now = none
  evaluate_crashed crash false (some hb) now =
      let age = K.since now hb in
      if K.exceeds age crash
      then verdict "CRASHED" (str_append "no heartbeat for " (str_append (K.rounded age) "s"))
      else none

  -- `self.last_workdir_change_at or self.claimed_at`
  abbrev pub progressed_at : WatchState K → Option K.Datetime
  progressed_at s = elim s.last_workdir_change_at [ none ↦ s.claimed_at | some d ↦ some d ]

  -- the end of `Stall.evaluate`
  unfoldable pub evaluate_progress :
      K.Seconds → K.Seconds → Option K.Datetime → K.Datetime → Option Verdict
  unfolding verdict
  evaluate_progress stall_s hb_age none now = none
  evaluate_progress stall_s hb_age (some at) now =
      let prog_age = K.since now at in
      if K.exceeds prog_age stall_s
      then verdict "STALLED" (
          str_append "alive (hb " (
            str_append (K.rounded hb_age)
              (str_append "s) but no workdir progress for " (str_append (K.rounded prog_age) "s"))))
      else none

  -- `Stall.evaluate`
  unfoldable pub evaluate_stall :
      K.Seconds
      → K.Seconds
      → Bool
      → Option K.Datetime
      → Option K.Datetime
      → K.Datetime
      → Option Verdict
  unfolding evaluate_progress
  evaluate_stall stall_s crash true hb progress now = none
  evaluate_stall stall_s crash false none progress now = none
  evaluate_stall stall_s crash false (some hb) progress now =
      let hb_age = K.since now hb in
      if K.exceeds hb_age crash then none else evaluate_progress stall_s hb_age progress now

  -- `ApproachingTimeout.evaluate`
  unfoldable pub evaluate_timeout :
      K.Seconds → Bool → Option K.Datetime → K.Datetime → K.Seconds → Option Verdict
  unfolding verdict
  evaluate_timeout frac true claimed now timeout = none
  evaluate_timeout frac false none now timeout = none
  evaluate_timeout frac false (some claimed) now timeout =
      if K.at_most timeout K.zero_seconds
      then none
      else (let elapsed = K.since now claimed in
          if K.exceeds elapsed (K.times frac timeout)
          then verdict "APPROACHING_TIMEOUT" (
              str_append "elapsed " (
                str_append (K.rounded elapsed) (
                  str_append "s > " (
                    str_append (K.percent frac)
                      (str_append " of " (str_append (K.rounded timeout) "s timeout"))))))
          else none)

  unfoldable pub evaluate_rule : AnomalyRule → WatchState K → Option Verdict
  unfolding evaluate_crashed evaluate_stall evaluate_timeout
  evaluate_rule (crashed crash) s = evaluate_crashed crash s.terminal s.last_heartbeat_at s.now
  evaluate_rule (stall stall_s crash) s =
      evaluate_stall stall_s crash s.terminal s.last_heartbeat_at (progressed_at s) s.now
  evaluate_rule (approaching_timeout frac) s =
      evaluate_timeout frac s.terminal s.claimed_at s.now s.task_timeout_s

  -- `evaluate`
  unfoldable pub evaluate : WatchState K → List AnomalyRule → Verdict
  evaluate s [] = record {
    level = "OK";
    reason = if not s.terminal then "progressing" else "terminal";
  }
  evaluate s (rule ∷ rules) = elim (evaluate_rule rule s) [ none ↦ evaluate s rules | some v ↦ v ]

  unfoldable pub default_rules : K.Seconds → K.Seconds → K.Seconds → List AnomalyRule
  default_rules stall_s crash_s fraction =
      crashed crash_s ∷ stall stall_s crash_s ∷ approaching_timeout fraction ∷ []
