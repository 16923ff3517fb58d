-- ===== src/Repository/Memory/History.antt =====
-- A history of `store` calls on a new `InMemoryEventRepository`.
use mathlib.Core.List.{append_assoc, append-nil}
use vfobs.Prelude.{ℕ, ◌+◌, ◌≡◌, refl, ap, sym, ◌∙◌, List, [], ◌∷◌, ◌++◌, arith, length}
use vfobs.Events.Platform.{Platform}
use vfobs.Events.Base.{Event}
use vfobs.Repository.Memory.{Repo, init, store}
use vfobs.Repository.Memory.Sorted.{IsWf}
use vfobs.Repository.Memory.Store.{init-IsWf, events-store, store-IsWf}

module _ {P : Platform} where
  -- The events stored one after the other; the second part lists the ids that were returned.
  unfoldable pub store_all : Repo P → List (Event P) → Repo P × List ℕ
  unfolding store
  store_all r [] = (r, [])
  store_all r (e ∷ es) =
      let (r', eid) = store r e in let (r'', ids) = store_all r' es in (r'', eid ∷ ids)

  -- The events under the ids from `n` on.
  abbrev pub numbered : ℕ → List (Event P) → List (ℕ × Event P)
  numbered n [] = []
  numbered n (e ∷ es) = (n, e) ∷ numbered (n + 1) es

  abbrev pub ids_from : ℕ → List (Event P) → List ℕ
  ids_from n [] = []
  ids_from n (e ∷ es) = n ∷ ids_from (n + 1) es

  store_all-from :
      (r : Repo P) (es : List (Event P))
      → IsWf r
      → IsWf (store_all r es).0
        × ((store_all r es).0.events ≡ r.events ++ numbered r.next_id es)
        × ((store_all r es).1 ≡ ids_from r.next_id es)
        × ((store_all r es).0.next_id ≡ r.next_id + length es)
  unfolding store_all store
  store_all-from r [] w = (w, sym (append-nil r.events), refl, omega arith)
  store_all-from r (e ∷ es) w =
      let (wf, items, ids, next) = store_all-from (store r e).0 es (store-IsWf r e w) in
      (
        wf,
        items
            ∙ ap (λ l. l ++ numbered (r.next_id + 1) es) (events-store r e w)
            ∙ append_assoc r.events ((r.next_id, e) ∷ []) (numbered (r.next_id + 1) es),
        ap (λ l. r.next_id ∷ l) ids,
        omega (arith, next),
      )

  -- Of any history of stores on a new repository: the events are kept in the order in which they
  -- were stored, under the ids 1, 2, 3 and so on, which are the ids that the calls returned.
  pub store_all-init :
      (es : List (Event P))
      → ((store_all init es).0.events ≡ numbered 1 es) × ((store_all init es).1 ≡ ids_from 1 es)
  store_all-init es = let (wf, items, ids, next) = store_all-from init es init-IsWf in (items, ids)
