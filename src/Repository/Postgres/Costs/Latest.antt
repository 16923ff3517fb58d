-- ===== src/Repository/Postgres/Costs/Latest.antt =====
-- The latest summary of each task, among rows and in a log: the `DISTINCT ON` of the rollup's query.
use mathlib.Core.Option
use vfobs.Prelude.{
  ℕ, ◌≡◌, refl, ◌∙◌, String, str_eq, eq_iff, Bool, true, false, ◌&&◌, Option, none, some, List, [],
  ◌∷◌, arith, map, last?, is_some, opt_eq, Bool-cases, Option-cases, inl, inr, if◌then◌else◌,
}
use vfobs.Prelude.Dict
use vfobs.Prelude.Dict.{string_key}
use vfobs.Events.Platform.{Platform}
use vfobs.Events.Base.{Event}
use vfobs.Events.Namespaces.{ExecutionSummary, execution_summary_of}
use vfobs.Repository.Log.Cost.{member, push, IsDistinct, in_scope, contributions}
use vfobs.Repository.Postgres.Costs.{entry, keep_last}

module _ {A : Type 0} where
  -- The last entry of a task.
  abbrev pub last_for : String → List (String × A) → Option A
  last_for t [] = none
  last_for t ((k, a) ∷ l) =
      if is_some (last_for t l) then last_for t l else if str_eq k t then some a else none

  abbrev pub keys : List (String × A) → List String
  keys l = map (λ e. e.0) l

  member-keys : (t : String) (l : List (String × A)) → member t (keys l) ≡ is_some (last_for t l)
  member-keys t [] = refl
  member-keys t ((k, a) ∷ l) = ground (arith, member-keys t l)

  pub get-keep_last : (t : String) (l : List (String × A)) → Dict.get t (keep_last l) ≡ last_for t l
  unfolding Dict.get keep_last
  get-keep_last t [] = refl
  get-keep_last t ((k, a) ∷ l) = ground (arith, get-keep_last t l, member-keys t l, eq_iff k t)

  member-keep_last :
      (t : String) (l : List (String × A)) → member t (keys (keep_last l)) ≡ member t (keys l)
  unfolding keep_last
  member-keep_last t [] = refl
  member-keep_last t ((k, a) ∷ l) = ground (arith, member-keep_last t l, eq_iff k t)

  pub keep_last-IsDistinct : (l : List (String × A)) → IsDistinct (keys (keep_last l))
  unfolding keep_last
  keep_last-IsDistinct [] = tt
  keep_last-IsDistinct ((k, a) ∷ l) = elim (Bool-cases (member k (keys l))) [
    | inl e ↦ rw e (keep_last-IsDistinct l)
    | inr e ↦ rw e (member-keep_last k l ∙ e, keep_last-IsDistinct l)
  ]

module _ {P : Platform} where
  -- What an event of the log contributes, and to which task.
  abbrev pub log_entry :
      Option String → Option String → ℕ × Event P → Option (String × ExecutionSummary P)
  log_entry w a x =
      if in_scope w a x.1 then entry x.1.task_id (execution_summary_of x.1.payload) else none

  abbrev pub log_entries :
      Option String → Option String → List (ℕ × Event P) → List (String × ExecutionSummary P)
  log_entries w a [] = []
  log_entries w a (x ∷ xs) = push (log_entry w a x) (log_entries w a xs)

  -- The summary of the latest contribution for a task.
  abbrev pub latest_summary :
      Option String → Option String → List (ℕ × Event P) → String → Option (ExecutionSummary P)
  latest_summary w a log t = Option.map (λ c. c.1) (last? (contributions w a t log))

  step :
      (b : Bool) (task : Option String) (es : Option (ExecutionSummary P)) (eid : ℕ) (t : String)
      (l : List (String × ExecutionSummary P)) (cs : List (ℕ × ExecutionSummary P))
      → last_for t l ≡ Option.map (λ c. c.1) (last? cs)
      → last_for t (push (if b then entry task es else none) l)
        ≡ Option.map
            (λ c. c.1)
            (last? (push (if b && opt_eq task t then Option.map (λ es. (eid, es)) es else none) cs))
  step false task es eid t l cs h = h
  step true none es eid t l cs h = h
  step true (some k) none eid t l cs h = ground (arith, h)
  step true (some k) (some es) eid t l cs h = elim (Bool-cases (str_eq k t)) [
    | inl e ↦ elim (Option-cases (last? cs)) [
      | inl f ↦ rw (e, h, f) refl
      | inr (c, f) ↦ rw (e, h, f) refl
    ]
    | inr e ↦ elim (Option-cases (last? cs)) [
      | inl f ↦ rw (e, h, f) refl
      | inr (c, f) ↦ rw (e, h, f) refl
    ]
  ]

  pub last_for-log_entries :
      (w a : Option String) (t : String) (log : List (ℕ × Event P))
      → last_for t (log_entries w a log) ≡ latest_summary w a log t
  last_for-log_entries w a t [] = refl
  last_for-log_entries w a t (x ∷ xs) =
      step (in_scope w a x.1) x.1.task_id (execution_summary_of x.1.payload) x.0 t
        (log_entries w a xs) (contributions w a t xs) (last_for-log_entries w a t xs)
