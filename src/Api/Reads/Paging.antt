-- ===== src/Api/Reads/Paging.antt =====
-- The pages of `get_task_events` and `list_events`: a page and what its cursor leads to make up all
-- that the query finds.
use vfobs.Prelude.{
  str_eq, ◌&&◌, ltb, ltb→lt, ltb-false→le, ◌<◌, ℕ, ◌+◌, ◌≤◌, ◌≡◌, refl, ap, sym, ◌∙◌, String, Bool,
  false, Option, none, some, List, [], ◌∷◌, ◌++◌, arith, length, take, last?, Bool-cases, inl, inr,
  length-take-le, take_of_length-take-lt, take-append-drop, last?-none_iff,
}
use mathlib.Core.Option
use mathlib.Core.List.{append-nil}
use vfobs.Prelude.Int.{ℤ, pos, min_ℤ, max_ℤ}
use vfobs.Events.Platform.{Platform}
use vfobs.Events.Base.{Event, event_type}
use vfobs.Repository.Model.{
  StoredEvent, clamp_limit, page_size, clamp_limit_bounds, clamp_limit_of_range,
}
use vfobs.Repository.Log.{of_task, hits, Ascends}
use vfobs.Repository.Log.Paging.{hits-next}
use vfobs.Repository.Log.Filter.{satisfies, agrees, opt_agrees}
use vfobs.Events.Classes.{before_dot}
use vfobs.Repository.Interface.{EventRepository, View, Contract}
use vfobs.Api.Reads.{EventQuery, filter_of, next_cursor, get_task_events, list_events}

requested_lem : (limit : ℤ) → max_ℤ (pos 1) (min_ℤ limit (pos 1000)) ≡ pos (page_size limit)
unfolding clamp_limit
requested_lem limit = (clamp_limit_bounds limit).0

module _ {P : Platform} where
  -- What the cursor of a response leads to: nothing where there is none.
  abbrev pub remaining : (Event P → Bool) → List (ℕ × Event P) → Option ℤ → List (StoredEvent P)
  remaining p log none = []
  remaining p log (some c) = hits p (some c) log

  -- The event has the organisation of the query, and of the other five whatever the query names.
  abbrev pub meets : EventQuery → Event P → Bool
  meets q ev =
      agrees q.workgraph_id ev.workgraph_id
      && (opt_agrees q.task_id ev.task_id
          && (opt_agrees q.agent_id ev.agent_id
              && (str_eq ev.org_id q.org_id
                  && (agrees q.type_ (event_type ev)
                      && agrees q.type_namespace (before_dot (event_type ev))))))

  cursor_of : StoredEvent P → ℤ
  cursor_of e = pos (e.id + 1)

  next_cursor_short :
      (n : ℕ) (page : List (StoredEvent P)) → length page < n → next_cursor (pos n) page ≡ none
  unfolding next_cursor
  next_cursor_short n page h = ground arith

  next_cursor_full :
      (n : ℕ) (page : List (StoredEvent P))
      → n ≤ length page
      → length page ≤ n
      → next_cursor (pos n) page ≡ Option.map cursor_of (last? page)
  unfolding next_cursor cursor_of
  next_cursor_full n page h k = ground arith

  next_cursor-some :
      (requested : ℤ) (page : List (StoredEvent P)) (c : ℤ)
      → next_cursor requested page ≡ some c
      → 1 ≤ length page
  unfolding next_cursor
  next_cursor-some requested [] c e = absurd (ground (arith, e))
  next_cursor-some requested (x ∷ page) c e = omega arith

  next_cursor_lem :
      (p : Event P → Bool) (from_id : Option ℤ) (n hi : ℕ) (log : List (ℕ × Event P))
      → Ascends 1 hi log
      → 1 ≤ n
      → hits p from_id log
        ≡ take n (hits p from_id log)
          ++ remaining p log (next_cursor (pos n) (take n (hits p from_id log)))
  next_cursor_lem p from_id n hi log a one = elim (Bool-cases (ltb (length page) n)) [
    | inl short ↦
        rw (next_cursor_short n page (ltb→lt _ _ short))
          (sym (append-nil page ∙ take_of_length-take-lt n found (ltb→lt _ _ short)))
    | inr full ↦ next full (last? page) refl
  ]
    where
      found : List (StoredEvent P)
      found = hits p from_id log

      page : List (StoredEvent P)
      page = take n found

      next :
          ltb (length page) n ≡ false
          → (o : Option (StoredEvent P)) → last? page ≡ o
          → found ≡ page ++ remaining p log (next_cursor (pos n) page)
      next full none e =
          absurd (omega (arith, ap length (last?-none_iff page e), ltb-false→le _ _ full))
      next full (some x) e =
          rw (next_cursor_full n page (ltb-false→le _ _ full) (length-take-le n found), e)
            (unfold cursor_of in
              (sym (take-append-drop n found)
                ∙ ap (λ t. page ++ t)
                    (sym (
                      hits-next p from_id n hi log x a one
                        (omega (arith, length-take-le n found, ltb-false→le _ _ full)) e))))

  module _ {R : EventRepository P} {V : View R} (C : Contract R V) where
    -- Of a valid repository, whatever the cursor and the limit: a page of a task's events, and what
    -- the response's cursor leads to, make up all events of the task from the cursor on; no cursor
    -- means that nothing is left. The page holds at most `limit` events, clamped to 1..1000.
    pub get_task_events_page :
        (s : R.State) (task_id : String) (from_id : Option ℤ) (limit : ℤ)
        → V.Valid s
        → (hits (of_task task_id) from_id (V.log s)
            ≡ (get_task_events R s task_id from_id limit).events
              ++ remaining
                  (of_task task_id)
                  (V.log s)
                  (get_task_events R s task_id from_id limit).next_from_id)
          × (length (get_task_events R s task_id from_id limit).events ≤ page_size limit)
    unfolding get_task_events
    get_task_events_page s task_id from_id limit v =
        let (e, low, high) = clamp_limit_bounds limit in
        rw (C.find_by_task_law s task_id from_id limit v, requested_lem limit)
          (
            next_cursor_lem (of_task task_id) from_id (page_size limit) (V.bound s) (V.log s)
                (C.log_ascends s v) low,
            length-take-le (page_size limit) (hits (of_task task_id) from_id (V.log s)),
          )

    -- A page with a cursor is not empty.
    pub get_task_events_progress :
        (s : R.State) (task_id : String) (from_id : Option ℤ) (limit c : ℤ)
        → (get_task_events R s task_id from_id limit).next_from_id ≡ some c
        → 1 ≤ length (get_task_events R s task_id from_id limit).events
    unfolding get_task_events
    get_task_events_progress s task_id from_id limit c e =
        next_cursor-some (max_ℤ (pos 1) (min_ℤ limit (pos 1000)))
          (R.find_by_task s task_id from_id limit) c e

    meets-filter_of : (q : EventQuery) → satisfies {P = P} (filter_of q) ≡ meets q
    unfolding satisfies
    meets-filter_of q = refl

    -- Of a valid repository and a query whose limit lies in 1..1000: a page of `list_events`, and
    -- what the response's cursor leads to, make up all events that have what the query names, from
    -- its own cursor on. The page holds at most `limit` events.
    pub list_events_page :
        (s : R.State) (q : EventQuery) (n : ℕ)
        → V.Valid s
        → q.limit ≡ pos n
        → 1 ≤ n
        → n ≤ 1000
        → (hits (meets q) q.from_id (V.log s)
            ≡ (list_events R s q).events
              ++ remaining (meets q) (V.log s) (list_events R s q).next_from_id)
          × (length (list_events R s q).events ≤ n)
    unfolding list_events
    list_events_page s q n v e low high =
        rw
          (
            C.find_filtered_law s (filter_of q) q.from_id q.limit v,
            e,
            clamp_limit_of_range n low high,
            meets-filter_of q,
          )
          (
            next_cursor_lem (meets q) q.from_id n (V.bound s) (V.log s) (C.log_ascends s v) low,
            length-take-le n (hits (meets q) q.from_id (V.log s)),
          )
