-- ===== src/Repository/Postgres/ById.antt =====
-- `get_by_id` of `PostgresEventRepository`, over a table that holds a log of events.
use mathlib.Core.Option.{some-injective}
use mathlib.Core.Path.{subst}
use vfobs.Prelude.{
  ℕ, ◌+◌, ◌≤◌, ◌≡◌, inl, inr, refl, ap, ◌∙◌, Bool, not, ◌&&◌, Option, none, some, List, [], ◌∷◌,
  arith, true, select, map, Bool-cases, ◌==◌,
}
use vfobs.Prelude.Dict
use vfobs.Prelude.Dict.{nat_key, nat_beq_iff}
use vfobs.Prelude.Int.{ℤ, pos, ltb_ℤ}
use vfobs.Prelude.Result.{ok, ◌>>=◌}
use vfobs.Events.Platform.{Platform}
use vfobs.Events.Base.{Event}
use vfobs.Repository.Log.{Ascends}
use vfobs.Repository.Postgres.Sql.{in_bigint, Database, DatabaseLaws}
use vfobs.Repository.Postgres.Rows.{
  Codec, CodecLaws, event_to_row, row_to_event, row_to_event-event_to_row,
}
use vfobs.Repository.Postgres.Reads.{
  KeepsJson, IsStorable, AllStorable, row_of, Represents, selected,
}
use vfobs.Repository.Postgres.{one_or_none, if_row, get_by_id}

module _ {P : Platform} where
  -- `id = :id`
  abbrev same_id : ℤ → ℕ × Event P → Bool
  same_id i x = not (ltb_ℤ (pos x.0) i) && not (ltb_ℤ i (pos x.0))

  abbrev item : ℕ → Option (Event P) → List (ℕ × Event P)
  item i none = []
  item i (some e) = (i, e) ∷ []

  select-same_id-above :
      (i lo hi : ℕ) (log : List (ℕ × Event P))
      → i + 1 ≤ lo
      → Ascends lo hi log
      → select (same_id (pos i)) log ≡ []
  select-same_id-above i lo hi [] h a = refl
  select-same_id-above i lo hi (x ∷ log) h a =
      ground (arith, a.0, select-same_id-above i (x.0 + 1) hi log (omega (arith, a.0)) a.1)

  select-same_id :
      (i lo hi : ℕ) (log : List (ℕ × Event P))
      → Ascends lo hi log
      → select (same_id (pos i)) log ≡ item i (Dict.get i log)
  unfolding Dict.get
  select-same_id i lo hi [] a = refl
  select-same_id i lo hi ((k, e) ∷ log) a = elim (Bool-cases (k == i)) [
    | inl e1 ↦ ground (
      arith,
      select-same_id-above i (k + 1) hi log (omega (arith, (nat_beq_iff k i).0 e1)) a.1,
      (nat_beq_iff k i).0 e1,
    )
    | inr e1 ↦ ground (arith, select-same_id i (k + 1) hi log a.1)
  ]

module _ {P : Platform} (C : Codec P) {D : Database P C.Json} (L : DatabaseLaws D) where
  AllStorable-get :
      (i : ℕ) (log : List (ℕ × Event P)) (e : Event P)
      → AllStorable C log
      → Dict.get i log ≡ some e
      → IsStorable C e
  unfolding Dict.get
  AllStorable-get i [] e a h = absurd (cc h)
  AllStorable-get i ((k, f) ∷ log) e a h = elim (Bool-cases (k == i)) [
    | inl e1 ↦ subst (λ z. IsStorable C z) (some-injective f e (rw e1 at h)) a.0
    | inr e1 ↦ AllStorable-get i log e a.1 (rw e1 at h)
  ]

  module _ (CL : CodecLaws C) (J : KeepsJson C L) where
    one_event :
        (i : ℕ) (o : Option (Event P))
        → ((e : Event P) → o ≡ some e → IsStorable C e)
        → (one_or_none (map (row_of C L) (item i o)) >>= if_row (λ x. row_to_event C x.1)) ≡ ok o
    unfolding one_or_none if_row
    one_event i none h = refl
    one_event i (some e) h =
        let st = h e refl in
        rw (
          row_to_event-event_to_row C CL e (L.jsonb (event_to_row C e).raw_data) st.finite st.stable
            (J.json_of-jsonb (event_to_row C e).raw_data))

    module _ (s : D.State) (log : List (ℕ × Event P)) (h : Represents C L s log) where
      -- The event with the id is found, where the driver takes the id.
      pub postgres-get_by_id :
          (i : ℕ) → in_bigint (pos i) ≡ true → get_by_id C D s (pos i) ≡ ok (Dict.get i log)
      unfolding get_by_id
      postgres-get_by_id i fits =
          ap (λ rows. rows >>= λ l. one_or_none l >>= if_row (λ x. row_to_event C x.1))
            (L.by_id_law s (pos i) fits
              ∙ ap ok (selected C L CL J s log h _ (same_id (pos i)) (λ x. refl))
              ∙ ap (λ l. ok (map (row_of C L) l)) (select-same_id i 1 (L.next_id s) log h.ascends))
          ∙ one_event i (Dict.get i log) (λ e. AllStorable-get i log e h.storable)
