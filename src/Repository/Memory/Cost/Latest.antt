-- ===== src/Repository/Memory/Cost/Latest.antt =====
-- The dictionary `latest` of `cost_summary`: the newest summary of each task, each task once.
use vfobs.Prelude.{
  ℕ, ◌+◌, ◌<◌, ◌≤◌, ◌≡◌, refl, sym, ◌∙◌, String, Option, none, some, List, [], ◌∷◌, arith, last?,
  opt_eq, Option-cases, inl, inr, if◌then◌else◌,
}
use mathlib.Core.Option
use vfobs.Prelude.Dict
use vfobs.Prelude.Dict.{string_key}
use vfobs.Events.Platform.{Platform}
use vfobs.Events.Base.{Event}
use vfobs.Events.Namespaces.{ExecutionSummary, execution_summary_of}
use vfobs.Repository.Log.{Ascends}
use vfobs.Repository.Log.Cost.{push, contribution, contributions}
use vfobs.Repository.Memory.Cost.{Latest, note_task, latest_step, latest_loop}

module _ {ℓ} {A : Type ℓ} where
  abbrev newer : Option A → Option A → Option A
  newer none old = old
  newer (some a) old = some a

  last?-push : (o : Option A) (l : List A) → last? (push o l) ≡ newer (last? l) o
  last?-push none [] = refl
  last?-push none (x ∷ l) = refl
  last?-push (some a) [] = refl
  last?-push (some a) (x ∷ l) = refl

  newer_assoc : (a b c : Option A) → newer (newer a b) c ≡ newer a (newer b c)
  newer_assoc none b c = refl
  newer_assoc (some x) b c = refl

  newer-none : (a : Option A) → newer a none ≡ a
  newer-none none = refl
  newer-none (some x) = refl

module _ {P : Platform} (workgraph_id agent_id : Option String) where
  -- All noted ids are below `lo`.
  abbrev IsOlder : ℕ → Latest P → Type 0
  IsOlder lo latest =
      (t : String) (c : ℕ × ExecutionSummary P) → Dict.get t latest ≡ some c → c.0 < lo

  note_task-get :
      (eid : ℕ) (task_id : Option String) (es : Option (ExecutionSummary P)) (latest : Latest P)
      (t : String)
      → IsOlder eid latest
      → Dict.get t (note_task eid task_id es latest)
        ≡ newer
            (if opt_eq task_id t then Option.map (λ e. (eid, e)) es else none)
            (Dict.get t latest)
  unfolding note_task
  note_task-get eid none es latest t old = refl
  note_task-get eid (some k) none latest t old = ground arith
  note_task-get eid (some k) (some e) latest t old = elim (Option-cases (Dict.get k latest)) [
    | inl w ↦ ground (arith, w, Dict.get-set k t (eid, e) latest)
    | inr (c, w) ↦ ground (arith, w, old k c w, Dict.get-set k t (eid, e) latest)
  ]

  step-get :
      (x : ℕ × Event P) (latest : Latest P) (t : String)
      → IsOlder x.0 latest
      → Dict.get t (latest_step workgraph_id agent_id x latest)
        ≡ newer (contribution workgraph_id agent_id t x) (Dict.get t latest)
  unfolding latest_step
  step-get x latest t old =
      ground (arith, note_task-get x.0 x.1.task_id (execution_summary_of x.1.payload) latest t old)

  -- A contribution carries the id of its event.
  contribution-id :
      (t : String) (x : ℕ × Event P) (c : ℕ × ExecutionSummary P)
      → contribution workgraph_id agent_id t x ≡ some c
      → c.0 ≡ x.0
  contribution-id t x c h = ground arith

  step-IsOlder :
      (x : ℕ × Event P) (latest : Latest P)
      → IsOlder x.0 latest
      → IsOlder (x.0 + 1) (latest_step workgraph_id agent_id x latest)
  step-IsOlder x latest old t c h = elim (Option-cases (contribution workgraph_id agent_id t x)) [
    | inl w ↦ ground (arith, w, step-get x latest t old, old t c)
    | inr (d, w) ↦ ground (arith, w, step-get x latest t old, contribution-id t x d w)
  ]

  IsOlder-weaken : (lo hi : ℕ) (latest : Latest P) → lo ≤ hi → IsOlder lo latest → IsOlder hi latest
  IsOlder-weaken lo hi latest le old t c h = omega (arith, old t c h)

  loop-get :
      (lo hi : ℕ) (items : List (ℕ × Event P)) (latest : Latest P) (t : String)
      → Ascends lo hi items
      → IsOlder lo latest
      → Dict.get t (latest_loop workgraph_id agent_id items latest)
        ≡ newer (last? (contributions workgraph_id agent_id t items)) (Dict.get t latest)
  unfolding latest_loop
  loop-get lo hi [] latest t a old = refl
  loop-get lo hi (x ∷ xs) latest t a old =
      let older = IsOlder-weaken lo x.0 latest a.0 old in
      rw
        (
          loop-get (x.0 + 1) hi xs (latest_step workgraph_id agent_id x latest) t a.1
              (step-IsOlder x latest older),
          step-get x latest t older,
          last?-push (contribution workgraph_id agent_id t x)
              (contributions workgraph_id agent_id t xs),
        )
        (sym (
          newer_assoc (last? (contributions workgraph_id agent_id t xs))
            (contribution workgraph_id agent_id t x) (Dict.get t latest)))

  -- On ascending items `latest` maps each task to its last contribution.
  pub latest-get :
      (hi : ℕ) (items : List (ℕ × Event P)) (t : String)
      → Ascends 1 hi items
      → Dict.get t (latest_loop workgraph_id agent_id items [])
        ≡ last? (contributions workgraph_id agent_id t items)
  unfolding Dict.get
  latest-get hi items t a =
      loop-get 1 hi items [] t a (λ t c h. cc)
      ∙ newer-none (last? (contributions workgraph_id agent_id t items))
