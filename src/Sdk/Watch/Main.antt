-- ===== src/Sdk/Watch/Main.antt =====
-- The command line of sdk/python/vfobs_sdk/watch.py: the options of `main` with their defaults, and
-- what it runs. `argparse` reads the options from the arguments, and the texts of floats.
use vfobs.Prelude.{
  ℕ, String, ◌≡◌, Bool, true, Option, some, List, [], ◌∷◌, get_or, inr, if◌then◌else◌, arith,
}
use vfobs.Prelude.Result.{Result, ok, Exception}
use vfobs.Sdk.Watch.State.{Clock}
use vfobs.Sdk.Watch.Rules.{Verdict, is_alert, default_rules}
use vfobs.Sdk.Watch.Loop.{Tick, watch_once, watch_loop, watch_loop_first}

-- The options that the command line gives; `once` is a flag.
pub record Given (K : Clock) : Type 0 where
  pub task : String
  pub workgraph : Option String
  pub url : Option String
  pub token : Option String
  pub interval : Option K.Seconds
  pub task_timeout : Option K.Seconds
  pub stall_seconds : Option K.Seconds
  pub crash_seconds : Option K.Seconds
  pub fraction : Option K.Seconds
  pub once : Bool

-- The floats 5.0, 1800.0, 60.0, 120.0 and 0.8.
pub record Literals (K : Clock) : Type 0 where
  pub five : K.Seconds
  pub half_hour : K.Seconds
  pub minute : K.Seconds
  pub two_minutes : K.Seconds
  pub four_fifths : K.Seconds

pub record Options (K : Clock) : Type 0 where
  pub task : String
  pub workgraph : Option String
  pub url : String
  pub token : String
  pub interval : K.Seconds
  pub task_timeout : K.Seconds
  pub stall_seconds : K.Seconds
  pub crash_seconds : K.Seconds
  pub fraction : K.Seconds
  pub once : Bool

module _ (K : Clock) (lit : Literals K) where
  unfoldable pub options_of : Given K → Options K
  options_of g = record {
    task = g.task;
    workgraph = g.workgraph;
    url = get_or g.url "http://localhost:18080";
    token = get_or g.token "watch";
    interval = get_or g.interval lit.five;
    task_timeout = get_or g.task_timeout lit.half_hour;
    stall_seconds = get_or g.stall_seconds lit.minute;
    crash_seconds = get_or g.crash_seconds lit.two_minutes;
    fraction = get_or g.fraction lit.four_fifths;
    once = g.once;
  }

  module _ {Data : Type 0} (to_status : Data → Option String) where
    -- `main`, over the polls to come with these options.
    unfoldable pub main :
        Given K → (Options K → List (Tick K to_status)) → Option (Result Exception ℕ)
    unfolding options_of default_rules watch_loop
    main g polls =
        let a = options_of g in
        watch_loop K to_status (default_rules K a.stall_seconds a.crash_seconds a.fraction)
          a.task_timeout a.once (polls a)

    -- With the flag `--once` the first poll decides, if its events can be read: the program ends
    -- with 2 for an alert and with 0 otherwise, and polls no more.
    pub main_once :
        (g : Given K) (t : Tick K to_status) (later : List (Tick K to_status)) (v : Verdict)
        → g.once ≡ true
        → watch_once K to_status
            (default_rules K
              (options_of g).stall_seconds
              (options_of g).crash_seconds
              (options_of g).fraction)
            (options_of g).task_timeout
            t
          ≡ ok v
        → main g (λ a. t ∷ later) ≡ some (ok (if is_alert v then 2 else 0))
    unfolding main options_of
    main_once g t later v once seen =
        watch_loop_first K to_status
          (default_rules K (options_of g).stall_seconds (options_of g).crash_seconds
            (options_of g).fraction)
          (options_of g).task_timeout g.once [] later t v tt seen (inr (ground (arith, once)))
