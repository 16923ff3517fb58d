-- ===== src/Repository/Memory/Scan.antt =====
-- `_scan` with its loop and early exit, against a description without either.
use vfobs.Prelude.{
  sym, ℕ, zero, suc, ◌+◌, ◌≤◌, ◌<◌, ◌≡◌, ◌∙◌, List, [], ◌∷◌, ◌++◌, arith, Option, Bool, length,
  take, length-append, Bool-cases, inl, inr, true, false, String,
}
use mathlib.Core.List.{append_assoc, append-nil}
use vfobs.Prelude.Int.{ℤ, pos}
use vfobs.Events.Platform.{Platform}
use vfobs.Events.Base.{Event}
use vfobs.Repository.Model.{StoredEvent, page_size, clamp_limit_bounds}
use vfobs.Repository.Log.{stored, of_task, of_workgraph, visible, hits}
use vfobs.Repository.Memory.{Repo, scan_loop, scan, find_by_task, find_by_workgraph}
use vfobs.Repository.Memory.Sorted.{IsWf, sorted_items_lem}

module _ {P : Platform} where
  module _ (p : Event P → Bool) (from_id : Option ℤ) (n : ℕ) where
    -- One round of the loop: an item is passed over, taken, or taken as the last.
    loop_skip :
        (x : ℕ × Event P) (xs : List (ℕ × Event P)) (out : List (StoredEvent P))
        → visible p from_id x ≡ false
        → scan_loop p from_id (pos n) (x ∷ xs) out ≡ scan_loop p from_id (pos n) xs out
    unfolding scan_loop
    loop_skip x xs out e = ground arith

    loop_more :
        (x : ℕ × Event P) (xs : List (ℕ × Event P)) (out : List (StoredEvent P))
        → visible p from_id x ≡ true
        → length out + 1 < n
        → scan_loop p from_id (pos n) (x ∷ xs) out
          ≡ scan_loop p from_id (pos n) xs (out ++ stored x ∷ [])
    unfolding scan_loop
    loop_more x xs out e h = ground (arith, length-append out (stored x ∷ []))

    loop_full :
        (x : ℕ × Event P) (xs : List (ℕ × Event P)) (out : List (StoredEvent P))
        → visible p from_id x ≡ true
        → n ≤ length out + 1
        → scan_loop p from_id (pos n) (x ∷ xs) out ≡ out ++ stored x ∷ []
    unfolding scan_loop
    loop_full x xs out e h = ground (arith, length-append out (stored x ∷ []))

    scan_loop_lem :
        (items : List (ℕ × Event P)) (out : List (StoredEvent P)) (k : ℕ)
        → n ≡ length out + suc k
        → scan_loop p from_id (pos n) items out ≡ out ++ take (suc k) (hits p from_id items)
    scan_loop_lem [] out k h = unfold scan_loop in sym (append-nil out)
    scan_loop_lem (x ∷ xs) out zero h = elim (Bool-cases (visible p from_id x)) [
      | inl e ↦ rw e (loop_full x xs out e (omega arith))
      | inr e ↦ rw e (loop_skip x xs out e ∙ scan_loop_lem xs out zero h)
    ]
    scan_loop_lem (x ∷ xs) out (suc k) h = elim (Bool-cases (visible p from_id x)) [
      | inl e ↦ rw e (
          loop_more x xs out e (omega arith)
          ∙ scan_loop_lem xs (out ++ stored x ∷ []) k
              (omega (arith, length-append out (stored x ∷ [])))
          ∙ append_assoc out (stored x ∷ []) (take (suc k) (hits p from_id xs)))
      | inr e ↦ rw e (loop_skip x xs out e ∙ scan_loop_lem xs out (suc k) h)
    ]

  scan_loop_start :
      (p : Event P → Bool) (from_id : Option ℤ) (n : ℕ) (items : List (ℕ × Event P))
      → 1 ≤ n
      → scan_loop p from_id (pos n) items [] ≡ take n (hits p from_id items)
  scan_loop_start p from_id zero items h = absurd (omega arith)
  scan_loop_start p from_id (suc k) items h =
      scan_loop_lem p from_id (suc k) items [] k (omega arith)

  -- On a well-formed store a scan returns the first `page_size limit` of the stored events that are
  -- at or behind the cursor and pass the test, in the order of their ids.
  pub scan_lem :
      (r : Repo P) (p : Event P → Bool) (from_id : Option ℤ) (limit : ℤ)
      → IsWf r
      → scan r p from_id limit ≡ take (page_size limit) (hits p from_id r.events)
  unfolding scan
  scan_lem r p from_id limit w =
      let (e, low, high) = clamp_limit_bounds limit in
      rw (sorted_items_lem 1 r.next_id r.events w.ascends, e)
        (scan_loop_start p from_id (page_size limit) r.events low)

  -- `find_by_task` is the first page of the task's events from the cursor on, in id order.
  pub find_by_task_lem :
      (r : Repo P) (task_id : String) (from_id : Option ℤ) (limit : ℤ)
      → IsWf r
      → find_by_task r task_id from_id limit
        ≡ take (page_size limit) (hits (of_task task_id) from_id r.events)
  find_by_task_lem r task_id from_id limit w =
      unfold find_by_task in scan_lem r (of_task task_id) from_id limit w

  pub find_by_workgraph_lem :
      (r : Repo P) (workgraph_id : String) (from_id : Option ℤ) (limit : ℤ)
      → IsWf r
      → find_by_workgraph r workgraph_id from_id limit
        ≡ take (page_size limit) (hits (of_workgraph workgraph_id) from_id r.events)
  find_by_workgraph_lem r workgraph_id from_id limit w =
      unfold find_by_workgraph in scan_lem r (of_workgraph workgraph_id) from_id limit w
