-- ===== src/Repository/Memory/Last.antt =====
-- `find_last_by_*` and `count_by_*`, against the events that the scans list.
use vfobs.Prelude.{
  ℕ, ◌+◌, ◌≡◌, refl, ap, sym, ◌∙◌, String, Bool, none, some, List, [], ◌∷◌, arith, length, last?,
  get_or, map, length-map, last?-map,
}
use vfobs.Events.Platform.{Platform}
use vfobs.Events.Base.{Event}
use vfobs.Repository.Memory.{
  Repo, matching, max_item, last_of, find_last_by_task, find_last_by_workgraph, count_by_task,
  count_by_workgraph,
}
use vfobs.Repository.Memory.Sorted.{IsWf}
use vfobs.Repository.Log.{stored, of_task, of_workgraph, hits, Ascends, Ascends-select}

module _ {P : Platform} where
  -- In an ascending list the item with the highest id is the last one.
  max_item-last? :
      (best : ℕ × Event P) (hi : ℕ) (l : List (ℕ × Event P))
      → Ascends (best.0 + 1) hi l
      → max_item best l ≡ get_or (last? l) best
  unfolding max_item
  max_item-last? best hi [] a = refl
  max_item-last? best hi (x ∷ l) a = ground (arith, a.0, max_item-last? x hi l a.1)

  last_of-last? :
      (lo hi : ℕ) (l : List (ℕ × Event P)) → Ascends lo hi l → last_of l ≡ last? (map stored l)
  unfolding last_of
  last_of-last? lo hi [] a = refl
  last_of-last? lo hi (x ∷ l) a =
      ap (λ t. some (stored t)) (max_item-last? x hi l a.1) ∙ sym (last?-map stored (x ∷ l))

  matching-last? :
      (p : Event P → Bool) (r : Repo P)
      → IsWf r
      → last_of (matching p r) ≡ last? (hits p none r.events)
  matching-last? p r w =
      last_of-last? 1 r.next_id (matching p r)
        (Ascends-select (λ t. p t.1) 1 r.next_id r.events w.ascends)

  -- The last event of a task or workgraph is the last that an unlimited scan lists, None where
  -- there is none, and the count is the number of events that such a scan lists.
  pub last_and_count :
      (r : Repo P) (id : String)
      → IsWf r
      → (find_last_by_task r id ≡ last? (hits (of_task id) none r.events))
        × (count_by_task r id ≡ length (hits (of_task id) none r.events))
        × (find_last_by_workgraph r id ≡ last? (hits (of_workgraph id) none r.events))
        × (count_by_workgraph r id ≡ length (hits (of_workgraph id) none r.events))
  unfolding find_last_by_task find_last_by_workgraph count_by_task count_by_workgraph
  last_and_count r id w = (
    matching-last? (of_task id) r w,
    sym (length-map stored (matching (of_task id) r)),
    matching-last? (of_workgraph id) r w,
    sym (length-map stored (matching (of_workgraph id) r)),
  )
