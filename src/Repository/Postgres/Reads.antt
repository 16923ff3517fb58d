-- ===== src/Repository/Postgres/Reads.antt =====
-- What the queries of `PostgresEventRepository` return, over a table that holds a log of events.
use mathlib.Core.Path.{fun_ext, subst}
use mathlib.Core.Option.{some-injective}
use vfobs.Prelude.{
  ℕ, ◌+◌, ◌≡◌, inl, inr, refl, ap, sym, ◌∙◌, Bool, true, some, List, [], ◌∷◌, arith, map, take,
  select, last?, Bool-cases, Option-cases, take-map, zero, suc,
}
use vfobs.Prelude.Dict.{string_key}
use vfobs.Prelude.Result.{ok, ◌>>=◌}
use vfobs.Events.Platform.{Platform}
use vfobs.Events.Base.{Event, new_event, kwargs_of}
use vfobs.Repository.Log.{stored, Ascends, Ascends-select}
use vfobs.Repository.Postgres.Sql.{
  Row, RawData, Database, DatabaseLaws, insert_row, order_by_id, all_hold,
}
use vfobs.Repository.Postgres.Rows.{
  Codec, CodecLaws, event_to_row, row_to_stored, json_of, with_data, row_to_event-event_to_row,
}
use vfobs.Repository.Postgres.Conditions.{Means}
use vfobs.Repository.Postgres.{Where, for_each, fetch}

pub select-map :
    {A B : Type 0} (f : A → B) (p : B → Bool) (l : List A)
    → select p (map f l) ≡ map f (select (λ a. p (f a)) l)
select-map f p [] = refl
select-map f p (x ∷ l) = ground (arith, select-map f p l)

-- Documented: JSONB keeps the value of a JSON text. It may reorder the keys of an object; values count
-- as the same here that Python's equality takes for the same, which ignores that order.
pub record KeepsJson {P : Platform} (C : Codec P) {D : Database P C.Json} (L : DatabaseLaws D)
    : Type 0 where
  pub json_of-jsonb : (d : RawData C.Json) → json_of C (L.jsonb d) ≡ json_of C d

module _ {P : Platform} (C : Codec P) where
  -- An event that the repository can give back: its constructor made it, and its numbers are finite.
  pub record IsStorable (e : Event P) : Type 0 where
    pub finite : C.is_finite e.payload ≡ true
    pub stable : new_event P (kwargs_of e) ≡ ok e

  abbrev pub AllStorable : List (ℕ × Event P) → Type 0
  AllStorable [] = Unit
  AllStorable (x ∷ log) = IsStorable x.1 × AllStorable log

  pub AllStorable-select :
      (p : ℕ × Event P → Bool) (log : List (ℕ × Event P))
      → AllStorable log
      → AllStorable (select p log)
  AllStorable-select p [] a = tt
  AllStorable-select p (x ∷ log) a = elim (Bool-cases (p x)) [
    | inl e ↦ rw e (a.0, AllStorable-select p log a.1)
    | inr e ↦ rw e (AllStorable-select p log a.1)
  ]

  AllStorable-take : (n : ℕ) (log : List (ℕ × Event P)) → AllStorable log → AllStorable (take n log)
  AllStorable-take zero log a = tt
  AllStorable-take (suc n) [] a = tt
  AllStorable-take (suc n) (x ∷ log) a = (a.0, AllStorable-take n log a.1)

  pub AllStorable-last? :
      (log : List (ℕ × Event P)) (y : ℕ × Event P)
      → AllStorable log
      → last? log ≡ some y
      → IsStorable y.1
  AllStorable-last? [] y a e = absurd (cc e)
  AllStorable-last? (x ∷ log) y a e = elim (Option-cases (last? log)) [
    | inl f ↦ subst (λ z. IsStorable z.1) (some-injective x y (rw f at e)) a.0
    | inr (z, f) ↦ AllStorable-last? log y a.1 (f ∙ rw f at e)
  ]

  module _ {D : Database P C.Json} (L : DatabaseLaws D) where
    -- The row of the table under which an event is kept.
    abbrev pub row_of : ℕ × Event P → ℕ × Row P C.Json
    row_of (eid, e) = (eid, with_data C (L.jsonb (event_to_row C e).raw_data) (event_to_row C e))

    -- The table holds the events of the log, in the order of their ids.
    pub record Represents (s : D.State) (log : List (ℕ × Event P)) : Type 0 where
      pub rows : L.table s ≡ map row_of log
      pub ascends : Ascends 1 (L.next_id s) log
      pub storable : AllStorable log

    insert_row_front :
        (x : ℕ × Event P) (hi : ℕ) (l : List (ℕ × Event P))
        → Ascends (x.0 + 1) hi l
        → insert_row (row_of x) (map row_of l) ≡ map row_of (x ∷ l)
    unfolding insert_row
    insert_row_front x hi [] a = refl
    insert_row_front x hi (y ∷ ys) a = ground (arith, a.0)

    pub order_by_id_lem :
        (lo hi : ℕ) (l : List (ℕ × Event P))
        → Ascends lo hi l
        → order_by_id (map row_of l) ≡ map row_of l
    unfolding order_by_id
    order_by_id_lem lo hi [] a = refl
    order_by_id_lem lo hi (x ∷ xs) a =
        ap (insert_row (row_of x)) (order_by_id_lem (x.0 + 1) hi xs a.1)
        ∙ insert_row_front x hi xs a.1

    module _ (CL : CodecLaws C) (J : KeepsJson C L) where
      pub row_to_stored_lem :
          (x : ℕ × Event P) → IsStorable x.1 → row_to_stored C (row_of x) ≡ ok (stored x)
      unfolding row_to_stored
      row_to_stored_lem (eid, e) h = rw (
          row_to_event-event_to_row C CL e (L.jsonb (event_to_row C e).raw_data) h.finite h.stable
            (J.json_of-jsonb (event_to_row C e).raw_data))

      for_each_lem :
          (log : List (ℕ × Event P))
          → AllStorable log
          → for_each (row_to_stored C) (map row_of log) ≡ ok (map stored log)
      unfolding for_each
      for_each_lem [] a = refl
      for_each_lem (x ∷ log) a = rw (row_to_stored_lem x a.0, for_each_lem log a.1)

      module _ (s : D.State) (log : List (ℕ × Event P)) (h : Represents s log) where
        pub selected :
            (q : ℕ × Row P C.Json → Bool) (p : ℕ × Event P → Bool)
            → ((x : ℕ × Event P) → q (row_of x) ≡ p x)
            → select q (L.table s) ≡ map row_of (select p log)
        selected q p same =
            ap (select q) h.rows
            ∙ select-map row_of q log
            ∙ ap (λ f. map row_of (select f log)) (fun_ext same)

        pub ordered :
            (q : ℕ × Row P C.Json → Bool) (p : ℕ × Event P → Bool)
            → ((x : ℕ × Event P) → q (row_of x) ≡ p x)
            → order_by_id (select q (L.table s)) ≡ map row_of (select p log)
        ordered q p same =
            ap order_by_id (selected q p same)
            ∙ order_by_id_lem 1 (L.next_id s) (select p log)
                (Ascends-select p 1 (L.next_id s) log h.ascends)

        pub fetch-Means :
            (w : Where) (n : ℕ) (q : ℕ × Row P C.Json → Bool) (p : ℕ × Event P → Bool)
            → Means L.encodes w n q
            → ((x : ℕ × Event P) → q (row_of x) ≡ p x)
            → fetch C D s w ≡ ok (take n (map stored (select p log)))
        unfolding fetch
        fetch-Means w n q p m same =
            ap (λ rows. rows >>= for_each (row_to_stored C))
              (L.page_law s w.clauses w.params n m.bound m.taken m.limit
                ∙ ap (λ l. ok (take n l))
                    (ordered (all_hold w.params w.clauses) p (λ x. m.meaning (row_of x) ∙ same x))
                ∙ ap ok (take-map row_of n (select p log)))
            ∙ for_each_lem (take n (select p log))
                (AllStorable-take n (select p log) (AllStorable-select p log h.storable))
            ∙ ap ok (sym (take-map stored n (select p log)))
