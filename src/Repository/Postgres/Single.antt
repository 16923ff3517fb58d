-- ===== src/Repository/Postgres/Single.antt =====
-- `get_by_id`, `find_last_by_*` and `count_by_*` of `PostgresEventRepository`, over a table that
-- holds a log of events.
use mathlib.Core.Option
use vfobs.Prelude.{
  ℕ, ◌≡◌, true, refl, ap, sym, ◌∙◌, String, Bool, Option, none, some, List, [], ◌∷◌, arith, select,
  last?, length, length-map, last?-map, opt_eq,
}
use vfobs.Prelude.Dict
use vfobs.Prelude.Dict.{nat_key}
use vfobs.Prelude.Result.{ok, ◌>>=◌}
use vfobs.Events.Platform.{Platform}
use vfobs.Events.Base.{Event}
use vfobs.Repository.Log.{stored, of_task, of_workgraph, visible, hits}
use vfobs.Repository.Postgres.Sql.{
  Database, DatabaseLaws, Column, column_of, text, equals, at_most_one,
}
use vfobs.Repository.Postgres.Rows.{Codec, CodecLaws, event_to_row, row_to_stored}
use vfobs.Repository.Postgres.Reads.{
  KeepsJson, IsStorable, AllStorable-select, AllStorable-last?, ordered, row_of, Represents,
  selected, row_to_stored_lem,
}
use vfobs.Repository.Postgres.{
  one_or_none, if_row, last, count, find_last_by_workgraph, find_last_by_task, count_by_workgraph,
  count_by_task,
}

module _ {P : Platform} (C : Codec P) {D : Database P C.Json} (L : DatabaseLaws D) where
  -- The rows with the value in the column, as events.
  abbrev IsColumn : Column → String → (Event P → Bool) → Type 0
  IsColumn col value p = (x : ℕ × Event P) → opt_eq (column_of col (row_of C L x).1) value ≡ p x.1

  module _ (CL : CodecLaws C) (J : KeepsJson C L) where
    one_row :
        (o : Option (ℕ × Event P))
        → ((y : ℕ × Event P) → o ≡ some y → IsStorable C y.1)
        → (one_or_none (at_most_one (Option.map (row_of C L) o)) >>= if_row (row_to_stored C))
          ≡ ok (Option.map stored o)
    unfolding one_or_none if_row
    one_row none h = refl
    one_row (some y) h = rw (row_to_stored_lem C L CL J y (h y refl))

    module _ (s : D.State) (log : List (ℕ × Event P)) (h : Represents C L s log) where
      last_lem :
          (col : Column) (value : String) (p : Event P → Bool)
          → IsColumn col value p
          → L.encodes value ≡ true
          → last C D s col value ≡ ok (last? (hits p none log))
      unfolding last Dict.get
      last_lem col value p same fits =
          ap (λ rows. rows >>= λ l. one_or_none l >>= if_row (row_to_stored C))
            (L.last_law s (equals col "v" ∷ []) (("v", text value) ∷ []) refl (rw fits refl)
              ∙ ap (λ l. ok (at_most_one (last? l)))
                  (ordered C L CL J s log h _ (visible p none) (λ x. rw (same x) (ground arith)))
              ∙ ap (λ o. ok (at_most_one o)) (last?-map (row_of C L) (select (visible p none) log)))
          ∙ one_row (last? (select (visible p none) log)) (λ y.
            AllStorable-last? C (select (visible p none) log) y
              (AllStorable-select C (visible p none) log h.storable))
          ∙ ap ok (sym (last?-map stored (select (visible p none) log)))

      count_lem :
          (col : Column) (value : String) (p : Event P → Bool)
          → IsColumn col value p
          → L.encodes value ≡ true
          → count C D s col value ≡ ok (length (hits p none log))
      unfolding count Dict.get
      count_lem col value p same fits =
          L.count_law s (equals col "v" ∷ []) (("v", text value) ∷ []) refl (rw fits refl)
          ∙ ap (λ l. ok (length l))
              (selected C L CL J s log h _ (visible p none) (λ x. rw (same x) (ground arith)))
          ∙ ap ok (length-map (row_of C L) (select (visible p none) log))
          ∙ ap ok (sym (length-map stored (select (visible p none) log)))

      pub postgres-find_last_by_task :
          (t : String)
          → L.encodes t ≡ true
          → find_last_by_task C D s t ≡ ok (last? (hits (of_task t) none log))
      unfolding find_last_by_task event_to_row
      postgres-find_last_by_task t fits = last_lem Column.task_id t (of_task t) (λ x. refl) fits

      pub postgres-find_last_by_workgraph :
          (w : String)
          → L.encodes w ≡ true
          → find_last_by_workgraph C D s w ≡ ok (last? (hits (of_workgraph w) none log))
      unfolding find_last_by_workgraph event_to_row
      postgres-find_last_by_workgraph w fits =
          last_lem Column.workgraph_id w (of_workgraph w) (λ x. refl) fits

      pub postgres-count_by_task :
          (t : String)
          → L.encodes t ≡ true
          → count_by_task C D s t ≡ ok (length (hits (of_task t) none log))
      unfolding count_by_task event_to_row
      postgres-count_by_task t fits = count_lem Column.task_id t (of_task t) (λ x. refl) fits

      pub postgres-count_by_workgraph :
          (w : String)
          → L.encodes w ≡ true
          → count_by_workgraph C D s w ≡ ok (length (hits (of_workgraph w) none log))
      unfolding count_by_workgraph event_to_row
      postgres-count_by_workgraph w fits =
          count_lem Column.workgraph_id w (of_workgraph w) (λ x. refl) fits
