-- ===== src/Sdk/Watch/State.antt =====
-- `WatchState` and `from_events` of sdk/python/vfobs_sdk/watch.py.
use Prim.Native.Char.{code}
use Prim.Native.String.{◌++◌ as str_append}
use vfobs.Prelude.{
  String, str_eq, ◌==◌, Bool, true, false, ◌||◌, Option, none, some, List, [], ◌∷◌, opt_eq,
  if◌then◌else◌,
}
use vfobs.Prelude.Result.{Result, ok, raise, Exception, value_error, ◌>>=◌}
use vfobs.Sdk.ReadClient.{StoredEventView}

-- What the watcher takes from Python: points in time and spans in seconds (floats), with their
-- comparisons, and the texts of numbers in messages.
pub record Clock : Type 1 where
  pub Datetime : Type 0
  pub Seconds : Type 0
  -- `datetime.fromisoformat`, None where it raises; `d.tzinfo` is set; `d.replace(tzinfo=UTC)`
  pub from_iso : String → Option Datetime
  pub has_tzinfo : Datetime → Bool
  pub in_utc : Datetime → Datetime
  -- `a > b` on points in time
  pub later : Datetime → Datetime → Bool
  -- `(a - b).total_seconds()`
  pub since : Datetime → Datetime → Seconds
  -- `a > b`, `a <= b`, `a * b` and `0` on spans
  pub exceeds : Seconds → Seconds → Bool
  pub at_most : Seconds → Seconds → Bool
  pub times : Seconds → Seconds → Seconds
  pub zero_seconds : Seconds
  -- `f"{a:.0f}"` and `f"{a:.0%}"`
  pub rounded : Seconds → String
  pub percent : Seconds → String

-- `s.replace("Z", "+00:00")`
unfoldable pub replace_z : String → String
replace_z String.[] = ""
replace_z (String.◌∷◌ c s) =
    let rest = replace_z s in if code c == b'Z' then str_append "+00:00" rest else String.◌∷◌ c rest

-- `_TERMINAL`
unfoldable pub is_terminal : Option String → Bool
is_terminal status =
    opt_eq status "done"
    || opt_eq status "failed"
    || opt_eq status "cancelled"
    || opt_eq status "rejected"

module _ (K : Clock) where
  -- `_parse_ts`
  unfoldable pub parse_ts : String → Result Exception K.Datetime
  unfolding replace_z
  parse_ts s = elim (K.from_iso (replace_z s)) [
    | none ↦ raise value_error
    | some d ↦ ok (if K.has_tzinfo d then d else K.in_utc d)
  ]

  pub record WatchState : Type 0 where
    pub now : K.Datetime
    pub claimed_at : Option K.Datetime
    pub last_heartbeat_at : Option K.Datetime
    pub last_workdir_change_at : Option K.Datetime
    pub terminal : Bool
    pub task_timeout_s : K.Seconds

  -- The variables of the loop of `from_events`.
  pub record Seen : Type 0 where
    pub claimed_at : Option K.Datetime
    pub hb : Option K.Datetime
    pub workdir_at : Option K.Datetime
    pub terminal : Bool

  -- `x if x is not None else ts`, and the later of the two times.
  abbrev pub first_of_two : Option K.Datetime → K.Datetime → Option K.Datetime
  first_of_two none ts = some ts
  first_of_two (some d) ts = some d

  abbrev pub latest_of_two : Option K.Datetime → K.Datetime → Option K.Datetime
  latest_of_two none ts = some ts
  latest_of_two (some d) ts = if K.later ts d then some ts else some d

  module _ {Data : Type 0} (to_status : Data → Option String) where
    -- The body of the loop, where `ts` is the time of the event.
    unfoldable pub see : Seen → StoredEventView Data → K.Datetime → Seen
    see w e ts =
        if str_eq e.type_ "task.claimed"
        then record w { claimed_at = first_of_two w.claimed_at ts }
        else if str_eq e.type_ "task.heartbeat"
        then record w { hb = latest_of_two w.hb ts }
        else if str_eq e.type_ "task.workdir_changed"
        then record w { workdir_at = latest_of_two w.workdir_at ts }
        else if str_eq e.type_ "task.state_changed"
        then (if is_terminal (to_status e.payload) then record w { terminal = true } else w)
        else w

    unfoldable pub see_all : Seen → List (StoredEventView Data) → Result Exception Seen
    unfolding see parse_ts
    see_all w [] = ok w
    see_all w (e ∷ es) = elim (parse_ts e.timestamp) [
      | raise x ↦ raise x
      | ok ts ↦ see_all (see w e ts) es
    ]

    abbrev pub nothing_seen : Seen
    nothing_seen = record { claimed_at = none; hb = none; workdir_at = none; terminal = false }

    -- `WatchState.from_events`
    unfoldable pub from_events :
        List (StoredEventView Data) → K.Datetime → K.Seconds → Result Exception WatchState
    unfolding see_all
    from_events events now task_timeout_s = do
      w ← see_all nothing_seen events
      ok (record {
        now = now;
        claimed_at = w.claimed_at;
        last_heartbeat_at = w.hb;
        last_workdir_change_at = w.workdir_at;
        terminal = w.terminal;
        task_timeout_s = task_timeout_s;
      })
