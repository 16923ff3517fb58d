-- ===== src/Repository/Log/Paging.antt =====
-- The cursor: what lies behind the last event of a full page is the rest of the hits.
use vfobs.Prelude.{
  ℕ, zero, suc, ◌+◌, ◌≤◌, ◌<◌, ◌≡◌, refl, ap, sym, ◌∙◌, Bool, true, false, Option, none, some, List,
  [], ◌∷◌, arith, length, take, drop, select, last?, Bool-cases, Option-cases, inl, inr, map,
  length-map, take-map, drop-map, last?-map,
}
use mathlib.Core.Option
use mathlib.Core.Option.{some-injective}
use native.Mathlib.Nat.{suc_inj}
use vfobs.Prelude.Int.{ℤ, pos}
use vfobs.Events.Platform.{Platform}
use vfobs.Events.Base.{Event}
use vfobs.Repository.Model.{StoredEvent, before_cursor}
use vfobs.Repository.Log.{stored, visible, hits, Ascends, Ascends-select}

before_cursor_mono :
    (from_id : Option ℤ) (c j : ℕ)
    → before_cursor from_id c ≡ false
    → c ≤ j
    → before_cursor from_id j ≡ false
before_cursor_mono none c j h le = refl
before_cursor_mono (some (ℤ.pos f)) c j h le = ground arith
before_cursor_mono (some (ℤ.negsuc f)) c j h le = ground arith

last?-tail {ℓ} :
    {A : Type ℓ} (l : List A) (y x : A) → 0 < length l → last? (y ∷ l) ≡ some x → last? l ≡ some x
last?-tail [] y x h e = absurd (omega arith)
last?-tail (z ∷ l) y x h e = e

module _ {P : Platform} where
  -- The last item of a page is at or behind the first id of its range.
  last?-ge :
      (n lo hi : ℕ) (l : List (ℕ × Event P)) (x : ℕ × Event P)
      → Ascends lo hi l
      → last? (take n l) ≡ some x
      → lo ≤ x.0
  last?-ge zero lo hi l x a h = cc
  last?-ge (suc n) lo hi [] x a h = cc
  last?-ge (suc n) lo hi (y ∷ l) x a h = elim (Option-cases (last? (take n l))) [
    | inl e ↦ ground (arith, e, h, a.0)
    | inr (z, e) ↦ ground (arith, e, h, a.0, last?-ge n (y.0 + 1) hi l z a.1 e)
  ]

  module _ (p : Event P → Bool) where
    -- A cursor at or before all ids hides none of them.
    select-cursor :
        (from_id : Option ℤ) (c lo hi : ℕ) (l : List (ℕ × Event P))
        → Ascends lo hi l
        → before_cursor from_id c ≡ false
        → c ≤ lo
        → select (visible p from_id) l ≡ select (λ t. p t.1) l
    select-cursor from_id c lo hi [] a h le = refl
    select-cursor from_id c lo hi (x ∷ l) a h le = rw (
      before_cursor_mono from_id c x.0 h (omega (arith, a.0)),
      select-cursor from_id c (x.0 + 1) hi l a.1 h (omega (arith, a.0)),
    )

    -- The cursor behind `x` hides every item up to `x`.
    behind : (x y : ℕ × Event P) → y.0 ≤ x.0 → visible p (some (pos (x.0 + 1))) y ≡ false
    behind x y le = ground arith

    seen :
        (from_id : Option ℤ) (y : ℕ × Event P)
        → visible p from_id y ≡ true
        → before_cursor from_id y.0 ≡ false
    seen from_id y e = ground arith

    -- With a cursor behind the last item of a full page, a scan selects what the page left.
    select-next :
        (from_id : Option ℤ) (k lo hi : ℕ) (l : List (ℕ × Event P)) (x : ℕ × Event P)
        → Ascends lo hi l
        → length (take (suc k) (select (visible p from_id) l)) ≡ suc k
        → last? (take (suc k) (select (visible p from_id) l)) ≡ some x
        → select (visible p (some (pos (x.0 + 1)))) l ≡ drop (suc k) (select (visible p from_id) l)
    select-next from_id k lo hi [] x a full e = cc
    select-next from_id zero lo hi (y ∷ l) x a full e = elim (Bool-cases (visible p from_id y)) [
      | inl v ↦
          let q : y ≡ x = some-injective y x (rw v at e) in
          let same : y.0 ≡ x.0 = ap (λ (t : ℕ × Event P). t.0) q in
          rw (v, behind x y (omega arith))
            (select-cursor (some (pos (x.0 + 1))) (x.0 + 1) (y.0 + 1) hi l a.1 (ground arith)
                (omega arith)
              ∙ sym (select-cursor from_id y.0 (y.0 + 1) hi l a.1 (seen from_id y v) (omega arith)))
      | inr v ↦
          rw (v, behind x y (above zero (rw v at e)))
            (select-next from_id zero (y.0 + 1) hi l x a.1 (rw v at full) (rw v at e))
    ]
      where
        above : (k : ℕ) → last? (take (suc k) (select (visible p from_id) l)) ≡ some x → y.0 ≤ x.0
        above k h = omega (
          arith,
          last?-ge (suc k) (y.0 + 1) hi (select (visible p from_id) l) x
              (Ascends-select (visible p from_id) (y.0 + 1) hi l a.1) h,
        )
    select-next from_id (suc k) lo hi (y ∷ l) x a full e = elim (Bool-cases (visible p from_id y)) [
      | inl v ↦
          let f : length (take (suc k) (select (visible p from_id) l)) ≡ suc k =
            suc_inj (rw v at full) in
          let e' =
            last?-tail (take (suc k) (select (visible p from_id) l)) y x (omega arith)
              (rw v at e) in
          rw (v, behind x y (above k e')) (select-next from_id k (y.0 + 1) hi l x a.1 f e')
      | inr v ↦
          rw (v, behind x y (above (suc k) (rw v at e)))
            (select-next from_id (suc k) (y.0 + 1) hi l x a.1 (rw v at full) (rw v at e))
    ]
      where
        above : (k : ℕ) → last? (take (suc k) (select (visible p from_id) l)) ≡ some x → y.0 ≤ x.0
        above k h = omega (
          arith,
          last?-ge (suc k) (y.0 + 1) hi (select (visible p from_id) l) x
              (Ascends-select (visible p from_id) (y.0 + 1) hi l a.1) h,
        )

  -- The same of pages of stored events: with the cursor behind the last event of a full page, the
  -- hits are those that the page left.
  pub hits-next :
      (p : Event P → Bool) (from_id : Option ℤ) (n hi : ℕ) (items : List (ℕ × Event P))
      (x : StoredEvent P)
      → Ascends 1 hi items
      → 1 ≤ n
      → length (take n (hits p from_id items)) ≡ n
      → last? (take n (hits p from_id items)) ≡ some x
      → hits p (some (pos (x.id + 1))) items ≡ drop n (hits p from_id items)
  hits-next p from_id zero hi items x a one full e = absurd (omega arith)
  hits-next p from_id (suc k) hi items x a one full e = elim (Option-cases (last? page)) [
    | inl w ↦ absurd (cc (w, last))
    | inr (z, w) ↦
        let q : stored z ≡ x = some-injective (stored z) x (rw w at last) in
        rw (← q, drop-map {A = ℕ × Event P} stored (suc k) picked)
          (ap (map stored) (select-next p from_id k 1 hi items z a size w))
  ]
    where
      picked : List (ℕ × Event P)
      picked = select (visible p from_id) items

      page : List (ℕ × Event P)
      page = take (suc k) picked

      shown : take (suc k) (hits p from_id items) ≡ map stored page
      shown = take-map stored (suc k) picked

      last : Option.map stored (last? page) ≡ some x
      last = sym (last?-map stored page) ∙ ap last? (sym shown) ∙ e

      size : length page ≡ suc k
      size = sym (length-map stored page) ∙ ap length (sym shown) ∙ full
