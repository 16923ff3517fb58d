-- ===== src/Repository/Postgres/Insert.antt =====
-- `store` of `PostgresEventRepository`.
use mathlib.Core.Path.{subst}
use vfobs.Prelude.{ℕ, ◌+◌, ◌≤◌, ◌≡◌, true, sym, ◌∙◌, ap, List, [], ◌∷◌, ◌++◌, arith, map, refl}
use vfobs.Prelude.Result.{ok}
use vfobs.Events.Platform.{Platform}
use vfobs.Events.Base.{Event}
use vfobs.Repository.Log.{Ascends, get-snoc}
use vfobs.Repository.Postgres.Sql.{Database, DatabaseLaws}
use vfobs.Repository.Postgres.Rows.{Codec, CodecLaws, event_to_row}
use vfobs.Repository.Postgres.Reads.{KeepsJson, IsStorable, AllStorable, row_of, Represents}
use vfobs.Repository.Postgres.{store, get_by_id}
use vfobs.Repository.Postgres.ById.{postgres-get_by_id}
use vfobs.Prelude.Int.{pos}
use vfobs.Prelude.{none, some}

map-snoc :
    {A B : Type 0} (f : A → B) (l : List A) (x : A) → map f (l ++ x ∷ []) ≡ map f l ++ f x ∷ []
map-snoc f [] x = refl
map-snoc f (y ∷ l) x = ap (λ t. f y ∷ t) (map-snoc f l x)

Ascends-snoc-gap :
    {P : Platform} (lo hi : ℕ) (l : List (ℕ × Event P)) (k : ℕ) (e : Event P)
    → Ascends lo hi l
    → hi ≤ k
    → Ascends lo (k + 1) (l ++ (k, e) ∷ [])
Ascends-snoc-gap lo hi [] k e a h = (omega arith, omega arith)
Ascends-snoc-gap lo hi (x ∷ l) k e a h = (a.0, Ascends-snoc-gap (x.0 + 1) hi l k e a.1 h)

module _ {P : Platform} (C : Codec P) where
  AllStorable-snoc :
      (l : List (ℕ × Event P)) (k : ℕ) (e : Event P)
      → AllStorable C l
      → IsStorable C e
      → AllStorable C (l ++ (k, e) ∷ [])
  AllStorable-snoc [] k e a h = (h, tt)
  AllStorable-snoc (x ∷ l) k e a h = (a.0, AllStorable-snoc l k e a.1 h)

  module _ {D : Database P C.Json} (L : DatabaseLaws D) where
    -- Where the table holds a log and accepts the event's row, `store` returns an id under which
    -- nothing was found, and the table then holds the log with the event under that id at its end, the
    -- ids ascending as before; under that id the event is found as it was.
    pub postgres-store :
        (CL : CodecLaws C) (J : KeepsJson C L) (s : D.State) (log : List (ℕ × Event P))
        (e : Event P)
        → Represents C L s log
        → IsStorable C e
        → L.accepts s (event_to_row C e) ≡ true
        → (s' : D.State) × (eid : ℕ) × (store C D s e ≡ ok (s', eid))
          × Represents C L s' (log ++ (eid, e) ∷ [])
          × (get_by_id C D s (pos eid) ≡ ok none)
          × (get_by_id C D s' (pos eid) ≡ ok (some e))
    unfolding store
    postgres-store CL J s log e h st ac =
        let (s', eid, stored, above, fits, next, table) = L.insert_law s (event_to_row C e) ac in
        let ends = Ascends-snoc-gap 1 (L.next_id s) log eid e h.ascends above in
        let h' : Represents C L s' (log ++ (eid, e) ∷ []) = record {
          rows =
              table
              ∙ ap (λ t. t ++ row_of C L (eid, e) ∷ []) h.rows
              ∙ sym (map-snoc (row_of C L) log (eid, e));
          ascends = subst (λ n. Ascends 1 n (log ++ (eid, e) ∷ [])) (sym next) ends;
          storable = AllStorable-snoc log eid e h.storable st;
        } in
        let (free, found) = get-snoc 1 (eid + 1) eid e log ends in
        (
          s',
          eid,
          stored,
          h',
          postgres-get_by_id C L CL J s log h eid fits ∙ ap ok free,
          postgres-get_by_id C L CL J s' (log ++ (eid, e) ∷ []) h' eid fits ∙ ap ok found,
        )
