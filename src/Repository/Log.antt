-- ===== src/Repository/Log.antt =====
-- The abstract view of an event store, which both repositories of event_repository.py promise: a
-- log of events under ascending ids, and what its queries select from it.
pub mod Paging
pub mod Filter
pub mod Cost
use vfobs.Prelude.Dict
use vfobs.Prelude.Dict.{nat_key}
use vfobs.Prelude.{
  refl, none, some, ℕ, ◌+◌, ◌≤◌, ◌≡◌, String, str_eq, Bool, not, ◌&&◌, Option, List, [], ◌∷◌, ◌++◌,
  arith, map, select, opt_eq, Bool-cases, inl, inr,
}
use vfobs.Prelude.Int.{ℤ}
use vfobs.Events.Platform.{Platform}
use vfobs.Events.Base.{Event}
use vfobs.Repository.Model.{StoredEvent, before_cursor}

module _ {P : Platform} where
  abbrev pub stored : ℕ × Event P → StoredEvent P
  stored (eid, ev) = record { id = eid; event = ev }

  abbrev pub of_workgraph : String → Event P → Bool
  of_workgraph workgraph_id ev = str_eq ev.workgraph_id workgraph_id

  abbrev pub of_task : String → Event P → Bool
  of_task task_id ev = opt_eq ev.task_id task_id

  -- What a scan looks for: from the cursor on, and passing the test.
  abbrev pub visible : (Event P → Bool) → Option ℤ → ℕ × Event P → Bool
  visible p from_id x = not (before_cursor from_id x.0) && p x.1

  -- All that a scan with no limit would give.
  abbrev pub hits : (Event P → Bool) → Option ℤ → List (ℕ × Event P) → List (StoredEvent P)
  hits p from_id items = map stored (select (visible p from_id) items)

  -- Every id lies in `lo ≤ id < hi`, and ids ascend strictly.
  abbrev pub Ascends : ℕ → ℕ → List (ℕ × Event P) → Type 0
  Ascends lo hi [] = lo ≤ hi
  Ascends lo hi (x ∷ xs) = (lo ≤ x.0) × Ascends (x.0 + 1) hi xs

  pub Ascends-weaken :
      (lo lo' hi : ℕ) (l : List (ℕ × Event P)) → lo' ≤ lo → Ascends lo hi l → Ascends lo' hi l
  Ascends-weaken lo lo' hi [] h a = omega arith
  Ascends-weaken lo lo' hi (x ∷ xs) h a = (omega arith, a.1)

  pub Ascends-le : (lo hi : ℕ) (l : List (ℕ × Event P)) → Ascends lo hi l → lo ≤ hi
  Ascends-le lo hi [] a = a
  Ascends-le lo hi (x ∷ xs) a = omega (arith, Ascends-le (x.0 + 1) hi xs a.1)

  pub Ascends-snoc :
      (lo hi : ℕ) (l : List (ℕ × Event P)) (e : Event P)
      → Ascends lo hi l
      → Ascends lo (hi + 1) (l ++ (hi, e) ∷ [])
  Ascends-snoc lo hi [] e a = (a, omega arith)
  Ascends-snoc lo hi (x ∷ xs) e a = (a.0, Ascends-snoc (x.0 + 1) hi xs e a.1)

  -- A selection of an ascending list ascends.
  pub Ascends-select :
      (p : ℕ × Event P → Bool) (lo hi : ℕ) (l : List (ℕ × Event P))
      → Ascends lo hi l
      → Ascends lo hi (select p l)
  Ascends-select p lo hi [] a = a
  Ascends-select p lo hi (x ∷ xs) a = elim (Bool-cases (p x)) [
    | inl e ↦ rw e (a.0, Ascends-select p (x.0 + 1) hi xs a.1)
    | inr e ↦ rw e (
        Ascends-weaken (x.0 + 1) lo hi (select p xs) (omega arith)
          (Ascends-select p (x.0 + 1) hi xs a.1))
  ]

Ascends-last :
    {P : Platform} (lo hi i : ℕ) (e : Event P) (l : List (ℕ × Event P))
    → Ascends lo hi (l ++ (i, e) ∷ [])
    → lo ≤ i
Ascends-last lo hi i e [] a = a.0
Ascends-last lo hi i e (x ∷ xs) a = omega (arith, Ascends-last (x.0 + 1) hi i e xs a.1)

-- The last item of an ascending list is the one under its id, and before it the id was free.
pub get-snoc :
    {P : Platform} (lo hi i : ℕ) (e : Event P) (l : List (ℕ × Event P))
    → Ascends lo hi (l ++ (i, e) ∷ [])
    → (Dict.get i l ≡ none) × (Dict.get i (l ++ (i, e) ∷ []) ≡ some e)
unfolding Dict.get
get-snoc lo hi i e [] a = (refl, ground arith)
get-snoc lo hi i e (x ∷ xs) a =
    let rest = get-snoc (x.0 + 1) hi i e xs a.1 in
    let above = Ascends-last (x.0 + 1) hi i e xs a.1 in
    (ground (arith, rest.0, above), ground (arith, rest.1, above))
