-- ===== src/Repository/Memory/Sorted.antt =====
-- The invariant of the store: ids ascend in the order of insertion and stay below the next id.
use vfobs.Prelude.{ℕ, ◌+◌, ◌≤◌, ◌≡◌, refl, ap, List, [], ◌∷◌, arith, none, ◌∙◌}
use vfobs.Prelude.Dict
use vfobs.Prelude.Dict.{nat_key}
use vfobs.Events.Platform.{Platform}
use vfobs.Events.Base.{Event}
use vfobs.Repository.Log.{Ascends, Ascends-le}
use vfobs.Repository.Memory.{Repo, insert_item, sorted_items}

module _ {P : Platform} where
  pub record IsWf (r : Repo P) : Type 0 where
    pub ascends : Ascends 1 r.next_id r.events

  -- An id outside the range is no key.
  pub get-none_of_ge :
      (k lo hi : ℕ) (l : List (ℕ × Event P)) → Ascends lo hi l → hi ≤ k → Dict.get k l ≡ none
  unfolding Dict.get
  get-none_of_ge k lo hi [] a h = refl
  get-none_of_ge k lo hi (x ∷ xs) a h =
      ground (arith, Ascends-le (x.0 + 1) hi xs a.1, get-none_of_ge k (x.0 + 1) hi xs a.1 h)

  insert_item_front :
      (x : ℕ × Event P) (hi : ℕ) (l : List (ℕ × Event P))
      → Ascends (x.0 + 1) hi l
      → insert_item x l ≡ x ∷ l
  unfolding insert_item
  insert_item_front x hi [] a = refl
  insert_item_front x hi (y ∷ ys) a = ground (arith, a.0)

  -- The items of a well-formed store come in the order of their ids already.
  pub sorted_items_lem : (lo hi : ℕ) (l : List (ℕ × Event P)) → Ascends lo hi l → sorted_items l ≡ l
  unfolding sorted_items
  sorted_items_lem lo hi [] a = refl
  sorted_items_lem lo hi (x ∷ xs) a =
      ap (insert_item x) (sorted_items_lem (x.0 + 1) hi xs a.1) ∙ insert_item_front x hi xs a.1
