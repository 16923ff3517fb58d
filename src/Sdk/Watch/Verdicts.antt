-- ===== src/Sdk/Watch/Verdicts.antt =====
-- What `evaluate` says under the default rules, told by the state of the watch alone.
use vfobs.Prelude.{
  String, ◌≡◌, refl, Bool, true, false, Option, none, some, List, [], ◌∷◌, ◌⊎◌, inl, inr, arith,
  Bool-cases,
}
use vfobs.Sdk.Watch.State.{Clock, WatchState}
use vfobs.Sdk.Watch.Rules.{
  Verdict, AnomalyRule, crashed, stall, approaching_timeout, evaluate_crashed, evaluate_stall,
  evaluate_timeout, evaluate_rule, evaluate, default_rules,
}

module _ (K : Clock) where
  -- The task goes on, and its last heartbeat is too old.
  pub record IsCrashed (s : WatchState K) (crash : K.Seconds) : Type 0 where
    pub going : s.terminal ≡ false
    pub hb : K.Datetime
    pub beats : s.last_heartbeat_at ≡ some hb
    pub silent : K.exceeds (K.since s.now hb) crash ≡ true

  -- The task goes on, its last heartbeat is fresh, and its last progress, the claim where there was
  -- no other, is too old.
  pub record IsStalled (s : WatchState K) (stall_s crash : K.Seconds) : Type 0 where
    pub going : s.terminal ≡ false
    pub hb : K.Datetime
    pub beats : s.last_heartbeat_at ≡ some hb
    pub alive : K.exceeds (K.since s.now hb) crash ≡ false
    pub at : K.Datetime
    pub progress :
        (s.last_workdir_change_at ≡ some at)
        ⊎ ((s.last_workdir_change_at ≡ none) × (s.claimed_at ≡ some at))
    pub stuck : K.exceeds (K.since s.now at) stall_s ≡ true

  -- The task goes on, has a time limit, and too much of it has passed since the claim.
  pub record IsLate (s : WatchState K) (fraction : K.Seconds) : Type 0 where
    pub going : s.terminal ≡ false
    pub claim : K.Datetime
    pub claimed : s.claimed_at ≡ some claim
    pub limited : K.at_most s.task_timeout_s K.zero_seconds ≡ false
    pub passed : K.exceeds (K.since s.now claim) (K.times fraction s.task_timeout_s) ≡ true

  abbrev level_of : Option Verdict → Option String
  level_of none = none
  level_of (some v) = some v.level

  -- A rule fires, with its level, exactly where its condition holds.
  abbrev Fires : Type 0 → Option Verdict → String → Type 0
  Fires Condition result level =
      (Condition × (level_of result ≡ some level)) ⊎ ((Condition → ⊥) × (result ≡ none))

  module _ (s : WatchState K) where
    crashed_lem :
        (crash : K.Seconds)
        → Fires (IsCrashed s crash) (evaluate_rule K (crashed crash) s) "CRASHED"
    unfolding evaluate_rule
    crashed_lem crash = go s.terminal s.last_heartbeat_at refl refl
      where
        go :
            (t : Bool) (o : Option K.Datetime)
            → s.terminal ≡ t
            → s.last_heartbeat_at ≡ o
            → Fires (IsCrashed s crash) (evaluate_rule K (crashed crash) s) "CRASHED"
        go true o e f = inr (λ c. cc (e, c.going), rw (e, evaluate_crashed))
        go false none e f = inr (λ c. cc (f, c.beats), rw (e, f, evaluate_crashed))
        go false (some hb) e f = elim (Bool-cases (K.exceeds (K.since s.now hb) crash)) [
          | inl x ↦
              inl (record { going = e; hb = hb; beats = f; silent = x }, ground (arith, e, f, x))
          | inr x ↦ inr (λ c. ground (arith, c.beats, c.silent, f, x), ground (arith, e, f, x))
        ]

    stalled_lem :
        (stall_s crash : K.Seconds)
        → Fires (IsStalled s stall_s crash) (evaluate_rule K (stall stall_s crash) s) "STALLED"
    unfolding evaluate_rule
    stalled_lem stall_s crash =
        go s.terminal s.last_heartbeat_at s.last_workdir_change_at s.claimed_at refl refl refl refl
      where
        Goal : Type 0
        Goal = Fires (IsStalled s stall_s crash) (evaluate_rule K (stall stall_s crash) s) "STALLED"

        aged :
            (hb at : K.Datetime)
            → s.terminal ≡ false
            → s.last_heartbeat_at ≡ some hb
            → K.exceeds (K.since s.now hb) crash ≡ false
            → (s.last_workdir_change_at ≡ some at)
              ⊎ ((s.last_workdir_change_at ≡ none) × (s.claimed_at ≡ some at))
            → Goal
        aged hb at e f x p = elim (Bool-cases (K.exceeds (K.since s.now at) stall_s)) [
          | inl y ↦ inl (
            record { going = e; hb = hb; beats = f; alive = x; at = at; progress = p; stuck = y },
            ground (arith, e, f, x, p, y),
          )
          | inr y ↦
              inr (λ c. ground (arith, c.progress, c.stuck, p, y), ground (arith, e, f, x, p, y))
        ]

        go :
            (t : Bool) (o w c : Option K.Datetime)
            → s.terminal ≡ t
            → s.last_heartbeat_at ≡ o
            → s.last_workdir_change_at ≡ w
            → s.claimed_at ≡ c
            → Goal
        go true o w c e f g h = inr (λ i. cc (e, i.going), rw (e, evaluate_stall))
        go false none w c e f g h = inr (λ i. cc (f, i.beats), rw (e, f, evaluate_stall))
        go false (some hb) w c e f g h = elim (Bool-cases (K.exceeds (K.since s.now hb) crash)) [
          | inl x ↦ inr (λ i. ground (arith, i.beats, i.alive, f, x), ground (arith, e, f, x))
          | inr x ↦ fresh hb w c e f g h x
        ]
          where
            fresh :
                (hb : K.Datetime) (w c : Option K.Datetime)
                → s.terminal ≡ false
                → s.last_heartbeat_at ≡ some hb
                → s.last_workdir_change_at ≡ w
                → s.claimed_at ≡ c
                → K.exceeds (K.since s.now hb) crash ≡ false
                → Goal
            fresh hb (some at) c e f g h x = aged hb at e f x (inl g)
            fresh hb none (some at) e f g h x = aged hb at e f x (inr (g, h))
            fresh hb none none e f g h x =
                inr (λ i. ground (arith, i.progress, g, h), ground (arith, e, f, g, h, x))

    late_lem :
        (fraction : K.Seconds)
        → Fires
            (IsLate s fraction)
            (evaluate_rule K (approaching_timeout fraction) s)
            "APPROACHING_TIMEOUT"
    unfolding evaluate_rule
    late_lem fraction = go s.terminal s.claimed_at refl refl
      where
        go :
            (t : Bool) (o : Option K.Datetime)
            → s.terminal ≡ t
            → s.claimed_at ≡ o
            → Fires
                (IsLate s fraction)
                (evaluate_rule K (approaching_timeout fraction) s)
                "APPROACHING_TIMEOUT"
        go true o e f = inr (λ c. cc (e, c.going), rw (e, evaluate_timeout))
        go false none e f = inr (λ c. cc (f, c.claimed), rw (e, f, evaluate_timeout))
        go false (some at) e f = elim (Bool-cases (K.at_most s.task_timeout_s K.zero_seconds)) [
          | inl x ↦ inr (λ c. cc (x, c.limited), ground (arith, e, f, x))
          | inr x ↦
              elim (Bool-cases (K.exceeds (K.since s.now at) (K.times fraction s.task_timeout_s))) [
                | inl y ↦ inl (
                  record { going = e; claim = at; claimed = f; limited = x; passed = y },
                  ground (arith, e, f, x, y),
                )
                | inr y ↦
                    inr (λ c. ground (arith, c.claimed, c.passed, f, y), ground (arith, e, f, x, y))
              ]
        ]

    -- Under the default rules the verdict is CRASHED exactly for a crashed task, otherwise STALLED
    -- for a stalled one, otherwise APPROACHING_TIMEOUT for a late one, and OK for every other.
    pub evaluate-default_rules :
        (stall_s crash fraction : K.Seconds)
        → let level = (evaluate K s (default_rules K stall_s crash fraction)).level in
          (IsCrashed s crash × (level ≡ "CRASHED"))
          ⊎ ((¬ IsCrashed s crash) × IsStalled s stall_s crash × (level ≡ "STALLED"))
          ⊎ ((¬ IsCrashed s crash)
              × (¬ IsStalled s stall_s crash)
              × IsLate s fraction
              × (level ≡ "APPROACHING_TIMEOUT"))
          ⊎ ((¬ IsCrashed s crash)
              × (¬ IsStalled s stall_s crash)
              × (¬ IsLate s fraction)
              × (level ≡ "OK"))
    unfolding evaluate default_rules
    evaluate-default_rules stall_s crash fraction = elim (crashed_lem crash) [
      | inl (c, e) ↦ inl (c, ground (arith, e))
      | inr (c, e) ↦ elim (stalled_lem stall_s crash) [
        | inl (d, f) ↦ inr (inl (c, d, ground (arith, e, f)))
        | inr (d, f) ↦ elim (late_lem fraction) [
          | inl (l, g) ↦ inr (inr (inl (c, d, l, ground (arith, e, f, g))))
          | inr (l, g) ↦ inr (inr (inr (c, d, l, ground (arith, e, f, g))))
        ]
      ]
    ]

    rule_terminal : (rule : AnomalyRule K) → s.terminal ≡ true → evaluate_rule K rule s ≡ none
    unfolding evaluate_rule
    rule_terminal (crashed c) e = rw (e, evaluate_crashed)
    rule_terminal (stall a c) e = rw (e, evaluate_stall)
    rule_terminal (approaching_timeout f) e = rw (e, evaluate_timeout)

    -- Of a terminal task no rule says anything, whatever the rules: the verdict is OK, "terminal".
    pub evaluate_terminal :
        (rules : List (AnomalyRule K))
        → s.terminal ≡ true
        → evaluate K s rules ≡ record { level = "OK"; reason = "terminal" }
    unfolding evaluate
    evaluate_terminal [] e = ground (arith, e)
    evaluate_terminal (rule ∷ rules) e =
        ground (arith, rule_terminal rule e, evaluate_terminal rules e)
