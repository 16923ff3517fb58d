-- ===== src/Sdk/Watch/Latest.antt =====
-- The first and the latest of a list of times, by the loop and by what they are.
use vfobs.Prelude.{
  ◌≡◌, refl, Bool, true, false, Option, none, some, List, [], ◌∷◌, ◌⊎◌, inl, inr, Bool-cases,
  if◌then◌else◌,
}
use vfobs.Sdk.Watch.State.{Clock, first_of_two, latest_of_two}

-- Documented: `>` on points in time is a strict order in which any two are comparable.
pub record OrderLaws (K : Clock) : Type 0 where
  pub later_irrefl : (a : K.Datetime) → K.later a a ≡ false
  pub later_trans :
      (a b c : K.Datetime) → K.later a b ≡ false → K.later b c ≡ false → K.later a c ≡ false
  pub later_asym : (a b : K.Datetime) → K.later a b ≡ true → K.later b a ≡ false

module _ {A : Type 0} where
  abbrev pub Among : A → List A → Type 0
  Among a [] = ⊥
  Among a (x ∷ l) = (a ≡ x) ⊎ Among a l

  abbrev pub All : (A → Type 0) → List A → Type 0
  All P [] = Unit
  All P (x ∷ l) = P x × All P l

  abbrev pub first? : List A → Option A
  first? [] = none
  first? (x ∷ l) = some x

module _ (K : Clock) where
  -- `d` is among the times and none of them is later; None if there are no times.
  abbrev pub IsLatest : List K.Datetime → Option K.Datetime → Type 0
  IsLatest l none = l ≡ []
  IsLatest l (some d) = Among d l × All (λ t. K.later t d ≡ false) l

  -- The later of all.
  unfoldable pub fold_latest : Option K.Datetime → List K.Datetime → Option K.Datetime
  fold_latest o [] = o
  fold_latest o (t ∷ l) = fold_latest (latest_of_two K o t) l

  unfoldable pub first_or : Option K.Datetime → List K.Datetime → Option K.Datetime
  first_or none l = first? l
  first_or (some d) l = some d

  pub first_or-if :
      (b : Bool) (o : Option K.Datetime) (t : K.Datetime) (l : List K.Datetime)
      → first_or o (if b then t ∷ l else l) ≡ first_or (if b then first_of_two K o t else o) l
  unfolding first_or
  first_or-if true none t l = refl
  first_or-if true (some d) t l = refl
  first_or-if false o t l = refl

  pub fold_latest-if :
      (b : Bool) (o : Option K.Datetime) (t : K.Datetime) (l : List K.Datetime)
      → fold_latest o (if b then t ∷ l else l)
        ≡ fold_latest (if b then latest_of_two K o t else o) l
  unfolding fold_latest
  fold_latest-if true o t l = refl
  fold_latest-if false o t l = refl

  module _ (laws : OrderLaws K) where
    -- With the time `d` known before, and none of the list later than the result.
    fold_latest-some :
        (d : K.Datetime) (l : List K.Datetime)
        → (m : K.Datetime) × (fold_latest (some d) l ≡ some m)
          × ((m ≡ d) ⊎ Among m l)
          × (K.later d m ≡ false)
          × All (λ t. K.later t m ≡ false) l
    unfolding fold_latest
    fold_latest-some d [] = (d, refl, inl refl, laws.later_irrefl d, tt)
    fold_latest-some d (t ∷ l) = elim (Bool-cases (K.later t d)) [
      | inl e ↦
          let (m, eq, here, le, rest) = fold_latest-some t l in
          (
            m,
            rw (e, fold_latest) eq,
            inr here,
            laws.later_trans d t m (laws.later_asym t d e) le,
            (le, rest),
          )
      | inr e ↦
          let (m, eq, here, le, rest) = fold_latest-some d l in
          (
            m,
            rw (e, fold_latest) eq,
            elim here [ inl p ↦ inl p | inr q ↦ inr (inr q) ],
            le,
            (laws.later_trans t d m e le, rest),
          )
    ]

    pub fold_latest-IsLatest : (l : List K.Datetime) → IsLatest l (fold_latest none l)
    unfolding fold_latest
    fold_latest-IsLatest [] = refl
    fold_latest-IsLatest (t ∷ l) =
        let (m, eq, here, le, rest) = fold_latest-some t l in rw eq (here, (le, rest))
