-- ===== src/Repository/Memory/Cost/Totals.antt =====
-- `cost_summary` as a whole: one summary for each task with a contribution, the newest.
use vfobs.Prelude.{
  ℕ, ◌≡◌, ◌≢◌, ◌↔◌, refl, ap, sym, ◌∙◌, String, str_eq, eq_iff, eq_refl, true, ◌||◌, Option, none,
  some, List, [], ◌∷◌, arith, length, last?, is_some, Bool-cases, inl, inr, ◌⊎◌, not, map,
  length-map,
}
use vfobs.Prelude.Dict
use vfobs.Prelude.Dict.{string_key}
use vfobs.Prelude.Int.{ℤ, pos}
use vfobs.Prelude.Result.{ok}
use vfobs.Events.Platform.{Platform}
use vfobs.Events.Base.{Event}
use vfobs.Events.Namespaces.{ExecutionSummary, execution_summary_of}
use vfobs.Repository.Model.{add_int, add_cost}
use vfobs.Repository.Memory.{Repo}
use vfobs.Repository.Memory.Sorted.{IsWf}
use vfobs.Repository.Memory.Cost.{
  Latest, is_newer, note_task, latest_step, latest_loop, totals, summarize, cost_summary,
}
use vfobs.Repository.Memory.Cost.Latest.{latest-get}
use vfobs.Repository.Log.Cost.{member, IsDistinct, contributions, task_totals, summary_of, IsRollup}

is_some-last?_iff : {A : Type 0} (l : List A) → (is_some (last? l) ≡ true) ↔ (l ≢ [])
is_some-last?_iff [] = (λ h. cc, λ h. absurd (h refl))
is_some-last?_iff (x ∷ l) = (λ _ h. cc, λ _. refl)

module _ {V : Type 0} where
  keys : List (String × V) → List String
  keys = map (λ e. e.0)

  length-keys : (d : List (String × V)) → length (keys d) ≡ length d
  unfolding keys
  length-keys d = length-map (λ e. e.0) d

  member-keys : (t : String) (d : List (String × V)) → member t (keys d) ≡ is_some (Dict.get t d)
  unfolding Dict.get keys
  member-keys t [] = refl
  member-keys t ((k, v) ∷ d) = ground (arith, member-keys t d)

  member-keys-set :
      (k t : String) (v : V) (d : List (String × V))
      → member t (keys (Dict.set k v d)) ≡ str_eq k t || member t (keys d)
  unfolding Dict.set keys
  member-keys-set k t v [] = refl
  member-keys-set k t v ((j, w) ∷ d) =
      ground (arith, eq_iff j k, eq_iff j t, eq_iff k t, member-keys-set k t v d)

  set-IsDistinct :
      (k : String) (v : V) (d : List (String × V))
      → IsDistinct (keys d)
      → IsDistinct (keys (Dict.set k v d))
  unfolding Dict.set keys
  set-IsDistinct k v [] h = (refl, tt)
  set-IsDistinct k v ((j, w) ∷ d) h = elim (Bool-cases (str_eq j k)) [
    | inl e ↦ rw e h
    | inr e ↦ rw e (
      ground (arith, member-keys-set k j v d, eq_iff j k, eq_iff k j, h.0),
      set-IsDistinct k v d h.1,
    )
  ]

module _ {P : Platform} where
  totals-task_totals :
      (f : String → Option (ℕ × ExecutionSummary P)) (cost : P.Float) (tokens turns : ℤ)
      (d : Latest P)
      → IsDistinct (keys d)
      → ((t : String) (c : ℕ × ExecutionSummary P) → Dict.get t d ≡ some c → f t ≡ some c)
      → totals cost tokens turns d ≡ task_totals f cost tokens turns (keys d)
  unfolding totals task_totals Dict.get keys
  totals-task_totals f cost tokens turns [] u h = refl
  totals-task_totals f cost tokens turns ((k, c) ∷ d) u h = rw (h k c (rw (eq_refl k))) (
      totals-task_totals f (add_cost P cost c.1.cost_usd) (add_int tokens c.1.total_tokens)
        (add_int turns c.1.num_turns) d u.1
        (λ t c' g. h t c' (ground (arith, eq_iff k t, member-keys t d, u.0, g))))

  note_task-IsDistinct :
      (eid : ℕ) (task_id : Option String) (es : Option (ExecutionSummary P)) (latest : Latest P)
      → IsDistinct (keys latest)
      → IsDistinct (keys (note_task eid task_id es latest))
  unfolding note_task
  note_task-IsDistinct eid none es latest h = h
  note_task-IsDistinct eid (some k) none latest h = h
  note_task-IsDistinct eid (some k) (some e) latest h =
      elim (Bool-cases (is_newer eid (Dict.get k latest))) [
        | inl new ↦ rw new (set-IsDistinct k (eid, e) latest h)
        | inr old ↦ rw old h
      ]

  step-cases :
      (w a : Option String) (x : ℕ × Event P) (latest : Latest P)
      → (latest_step w a x latest ≡ latest)
        ⊎ (latest_step w a x latest
            ≡ note_task x.0 x.1.task_id (execution_summary_of x.1.payload) latest)
  unfolding latest_step
  step-cases w a x latest = ground arith

  loop-IsDistinct :
      (w a : Option String) (items : List (ℕ × Event P)) (latest : Latest P)
      → IsDistinct (keys latest)
      → IsDistinct (keys (latest_loop w a items latest))
  unfolding latest_loop
  loop-IsDistinct w a [] latest h = h
  loop-IsDistinct w a (x ∷ xs) latest h =
      loop-IsDistinct w a xs (latest_step w a x latest) (elim (step-cases w a x latest) [
        | inl e ↦ rw e h
        | inr e ↦
            rw e (note_task-IsDistinct x.0 x.1.task_id (execution_summary_of x.1.payload) latest h)
      ])

  cost_summary-ok :
      (r : Repo P) (w a : Option String)
      → is_some w ≡ not (is_some a)
      → cost_summary r w a ≡ ok (summarize (latest_loop w a r.events []))
  unfolding cost_summary
  cost_summary-ok r none none h = cc
  cost_summary-ok r none (some a) h = refl
  cost_summary-ok r (some w) none h = refl
  cost_summary-ok r (some w) (some a) h = cc

  summarize-summary_of :
      (f : String → Option (ℕ × ExecutionSummary P)) (d : Latest P)
      → IsDistinct (keys d)
      → ((t : String) (c : ℕ × ExecutionSummary P) → Dict.get t d ≡ some c → f t ≡ some c)
      → summarize d ≡ summary_of f (keys d)
  unfolding summarize summary_of
  summarize-summary_of f d u h =
      rw (totals-task_totals f P.float_zero (pos 0) (pos 0) d u h, length-keys d)

  -- On a well-formed store, with exactly one of the two scopes given, `cost_summary` covers each
  -- task that has a contribution in the scope exactly once, counts these tasks, and sums the
  -- latest contribution of each.
  pub cost_summary_lem :
      (r : Repo P) (w a : Option String)
      → IsWf r
      → is_some w ≡ not (is_some a)
      → IsRollup w a r.events (cost_summary r w a)
  cost_summary_lem r w a wf h = (
    keys latest,
    distinct,
    λ t.
        rw (member-keys t latest, latest-get w a r.next_id r.events t wf.ascends)
          (is_some-last?_iff (contributions w a t r.events)),
    cost_summary-ok r w a h
        ∙ ap ok (
            summarize-summary_of (λ t. last? (contributions w a t r.events)) latest distinct
              (λ t c g. sym (latest-get w a r.next_id r.events t wf.ascends) ∙ g)),
  )
    where
      latest : Latest P
      latest = latest_loop w a r.events []

      distinct : IsDistinct (keys latest)
      distinct = unfold keys in loop-IsDistinct w a r.events [] tt
