-- ===== src/Repository/Memory/Store.antt =====
-- `store` and `get_by_id`.
use vfobs.Prelude.{ℕ, ◌+◌, ◌≡◌, refl, [], ◌∷◌, ◌++◌, arith, none, some, ◌==◌, if◌then◌else◌}
use vfobs.Prelude.Dict
use vfobs.Prelude.Dict.{nat_key}
use vfobs.Events.Platform.{Platform}
use vfobs.Events.Base.{Event}
use vfobs.Repository.Memory.{Repo, init, store, get_by_id}
use vfobs.Repository.Memory.Sorted.{IsWf, get-none_of_ge}
use vfobs.Repository.Log.{Ascends-snoc}

module _ {P : Platform} where
  pub init-IsWf : IsWf (init {P = P})
  init-IsWf = record { ascends = omega arith }

  -- On a well-formed store the new event goes to the end, under the next id.
  pub events-store :
      (r : Repo P) (e : Event P) → IsWf r → (store r e).0.events ≡ r.events ++ (r.next_id, e) ∷ []
  unfolding store
  events-store r e w =
      Dict.set_of_get-none r.next_id e r.events
        (get-none_of_ge r.next_id 1 r.next_id r.events w.ascends (omega arith))

  next_id-store : (r : Repo P) (e : Event P) → (store r e).0.next_id ≡ r.next_id + 1
  unfolding store
  next_id-store r e = refl

  pub store-IsWf : (r : Repo P) (e : Event P) → IsWf r → IsWf (store r e).0
  store-IsWf r e w = record {
    ascends =
        rw (events-store r e w, next_id-store r e) (Ascends-snoc 1 r.next_id r.events e w.ascends);
  }

  -- Storing an event gives it an id that no stored event has, keeps the store well-formed, and
  -- makes it the event found under that id, while every other id finds what it found before.
  pub get_by_id-store :
      (r : Repo P) (e : Event P) (i : ℕ)
      → IsWf r
      → IsWf (store r e).0
        × (get_by_id r (store r e).1 ≡ none)
        × (get_by_id (store r e).0 i ≡ (if (store r e).1 == i then some e else get_by_id r i))
  get_by_id-store r e i w = (store-IsWf r e w, fresh, found)
    where
      fresh : get_by_id r (store r e).1 ≡ none
      fresh =
          unfold store get_by_id in
          get-none_of_ge r.next_id 1 r.next_id r.events w.ascends (omega arith)

      found : get_by_id (store r e).0 i ≡ (if (store r e).1 == i then some e else get_by_id r i)
      found = unfold store get_by_id in Dict.get-set r.next_id i e r.events
