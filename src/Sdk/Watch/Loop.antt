-- ===== src/Sdk/Watch/Loop.antt =====
-- `_watch_once` and the polling loop of `main` in sdk/python/vfobs_sdk/watch.py.
use Prim.Native.String.{◌++◌ as str_append}
use Prim.Native.String.append
use Prim.Native.String.compare
use vfobs.Prelude.{
  ℕ, String, str_eq, ◌≡◌, Bool, true, false, ◌||◌, Option, none, some, List, [], ◌∷◌, ◌++◌, arith,
  ap, ◌∙◌, if◌then◌else◌, ◌⊎◌, inr,
}
use vfobs.Prelude.Result.{Result, ok, raise, Exception, read_unavailable, ◌>>=◌}
use vfobs.Sdk.ReadClient.{StoredEventView}
use vfobs.Sdk.Watch.State.{Clock, from_events}
use vfobs.Sdk.Watch.Rules.{Verdict, is_alert, AnomalyRule, evaluate}

module _ (K : Clock) {Data : Type 0} (to_status : Data → Option String) where
  -- One poll: what `client.task_events` came to, the text of its exception, and the time.
  pub record Tick : Type 0 where
    pub events : Result Exception (List (StoredEventView Data))
    pub detail : String
    pub now : K.Datetime

  unavailable : String → Result Exception Verdict
  unavailable detail =
      ok (record { level = "OK"; reason = str_append "watch unavailable this tick: " detail })

  -- `_watch_once`: only `ReadUnavailable` is caught, and only from the read.
  unfoldable pub watch_once : List (AnomalyRule K) → K.Seconds → Tick → Result Exception Verdict
  unfolding unavailable
  watch_once rules timeout_s t = elim t.events [
    | raise x ↦ elim x [ read_unavailable ↦ unavailable t.detail | other ↦ raise other ]
    | ok events ↦ do
      state ← from_events K to_status events t.now timeout_s
      ok (evaluate K state rules)
  ]

  -- The exit code that a verdict leads to; None where the loop sleeps and goes on.
  unfoldable pub exit_code : Bool → Verdict → Option ℕ
  exit_code once v =
      if is_alert v then some 2 else if str_eq v.reason "terminal" || once then some 0 else none

  -- What the loop does with an evaluation, where `rest` is what it comes to when it goes on.
  unfoldable pub after_tick :
      Bool → Result Exception Verdict → Option (Result Exception ℕ) → Option (Result Exception ℕ)
  unfolding exit_code
  after_tick once (raise x) rest = some (raise x)
  after_tick once (ok v) rest = elim (exit_code once v) [ some code ↦ some (ok code) | none ↦ rest ]

  -- The loop of `main` over the polls to come; None where it still runs after all of them.
  unfoldable pub watch_loop :
      List (AnomalyRule K) → K.Seconds → Bool → List Tick → Option (Result Exception ℕ)
  unfolding watch_once after_tick
  watch_loop rules timeout_s once [] = none
  watch_loop rules timeout_s once (t ∷ ts) =
      let rest = watch_loop rules timeout_s once ts in
      after_tick once (watch_once rules timeout_s t) rest

  module _ (rules : List (AnomalyRule K)) (timeout_s : K.Seconds) where
    -- The loop goes on after the tick.
    pub record IsQuiet (once : Bool) (t : Tick) : Type 0 where
      pub verdict : Verdict
      pub seen : watch_once rules timeout_s t ≡ ok verdict
      pub goes_on : exit_code once verdict ≡ none

    abbrev pub AllQuiet : Bool → List Tick → Type 0
    AllQuiet once [] = Unit
    AllQuiet once (t ∷ ts) = IsQuiet once t × AllQuiet once ts

    watch_loop_quiet :
        (once : Bool) (t : Tick) (ts : List Tick)
        → IsQuiet once t
        → watch_loop rules timeout_s once (t ∷ ts) ≡ watch_loop rules timeout_s once ts
    unfolding watch_loop after_tick
    watch_loop_quiet once t ts q = rw (q.seen, after_tick, q.goes_on)

    -- The first tick with a verdict that ends the watch decides the exit code: 2 for an alert, and
    -- 0 for a terminal task or a single evaluation; what would come later does not matter.
    pub watch_loop_first :
        (once : Bool) (before after : List Tick) (t : Tick) (v : Verdict)
        → AllQuiet once before
        → watch_once rules timeout_s t ≡ ok v
        → (is_alert v ≡ true) ⊎ ((str_eq v.reason "terminal" || once) ≡ true)
        → watch_loop rules timeout_s once (before ++ t ∷ after)
          ≡ some (ok (if is_alert v then 2 else 0))
    unfolding watch_loop after_tick exit_code
    watch_loop_first once [] after t v q e d = ground (arith, e, d)
    watch_loop_first once (b ∷ before) after t v q e d =
        watch_loop_quiet once b (before ++ t ∷ after) q.0
        ∙ watch_loop_first once before after t v q.1 e d

    unavailable-not_terminal :
        (detail : String)
        → str_eq (str_append "watch unavailable this tick: " detail) "terminal" ≡ false
    unavailable-not_terminal detail =
        rw (append.cons "w" _ detail, compare.cons-cons "w" "t" _ "erminal")

    unavailable-IsQuiet : (t : Tick) → t.events ≡ raise read_unavailable → IsQuiet false t
    unfolding watch_once unavailable exit_code is_alert
    unavailable-IsQuiet t e = record {
      verdict = record {
        level = "OK";
        reason = str_append "watch unavailable this tick: " t.detail;
      };
      seen = simp (e, watch_once);
      goes_on = simp (unavailable-not_terminal t.detail);
    }

    unavailable_is_left_out :
        (before after : List Tick) (t : Tick)
        → t.events ≡ raise read_unavailable
        → watch_loop rules timeout_s false (before ++ t ∷ after)
          ≡ watch_loop rules timeout_s false (before ++ after)
    unfolding watch_loop
    unavailable_is_left_out [] after t e = watch_loop_quiet false t after (unavailable-IsQuiet t e)
    unavailable_is_left_out (b ∷ before) after t e =
        ap (after_tick false (watch_once rules timeout_s b))
          (unavailable_is_left_out before after t e)

    -- A poll that vfobs does not answer: without `--once` it changes nothing, and the loop ends as it
    -- would without it; with `--once`, as the first poll, it ends the watch with the exit code 0.
    pub watch_loop_unavailable :
        (before after : List Tick) (t : Tick)
        → t.events ≡ raise read_unavailable
        → (watch_loop rules timeout_s false (before ++ t ∷ after)
            ≡ watch_loop rules timeout_s false (before ++ after))
          × (watch_loop rules timeout_s true (t ∷ after) ≡ some (ok 0))
    unfolding watch_once unavailable is_alert
    watch_loop_unavailable before after t e =
        let v : Verdict = record {
          level = "OK";
          reason = str_append "watch unavailable this tick: " t.detail;
        } in
        (
          unavailable_is_left_out before after t e,
          watch_loop_first true [] after t v tt (simp (e, watch_once)) (inr (ground arith)),
        )
