-- ===== src/Sdk/Emitter/Warnings.antt =====
-- `_warn` of `HttpEmitter`: the rate limit of the warnings on failed deliveries. A time is the number
-- that `time.monotonic` gives.
use vfobs.Prelude.{
  ℕ, ◌+◌, ◌≤◌, ◌≡◌, refl, arith, List, [], ◌∷◌, ltb, Bool-cases, inl, inr, if◌then◌else◌,
}

-- `_last_warn`, and the times of the warnings that were logged, the latest first.
pub record Warner : Type 0 where
  pub last_warn : ℕ
  pub logged : List ℕ

abbrev pub new_warner : Warner
new_warner = record { last_warn = 0; logged = [] }

unfoldable pub warn : ℕ → ℕ → Warner → Warner
warn warn_every now w =
    if ltb now (w.last_warn + warn_every)
    then w
    else record { last_warn = now; logged = now ∷ w.logged }

-- Failures at the given times, the latest first.
unfoldable pub warn_all : ℕ → List ℕ → Warner
unfolding warn
warn_all warn_every [] = new_warner
warn_all warn_every (now ∷ older) = warn warn_every now (warn_all warn_every older)

-- Any two warnings that follow each other are at least `gap` apart, and the first is at `gap` or later.
abbrev pub IsSpaced : ℕ → List ℕ → Type 0
IsSpaced gap [] = Unit
IsSpaced gap (t ∷ []) = gap ≤ t
IsSpaced gap (t ∷ u ∷ l) = (u + gap ≤ t) × IsSpaced gap (u ∷ l)

abbrev pub latest : List ℕ → ℕ
latest [] = 0
latest (t ∷ l) = t

module _ (gap : ℕ) where
  IsSpaced-cons :
      (now : ℕ) (l : List ℕ) → latest l + gap ≤ now → IsSpaced gap l → IsSpaced gap (now ∷ l)
  IsSpaced-cons now [] h s = omega (arith, h)
  IsSpaced-cons now (t ∷ l) h s = (h, s)

  -- However often deliveries fail, the warnings are at least `gap` apart, and the limit counts from
  -- the latest of them.
  pub warn_all-IsSpaced :
      (failures : List ℕ)
      → IsSpaced gap (warn_all gap failures).logged
        × (latest (warn_all gap failures).logged ≡ (warn_all gap failures).last_warn)
  unfolding warn_all
  warn_all-IsSpaced [] = (tt, refl)
  warn_all-IsSpaced (now ∷ older) =
      let w = warn_all gap older in
      let (spaced, same) = warn_all-IsSpaced older in
      elim (Bool-cases (ltb now (w.last_warn + gap))) [
        | inl soon ↦ rw (warn, soon) (spaced, same)
        | inr late ↦
            rw (warn, late) (IsSpaced-cons now w.logged (ground (arith, same, late)) spaced, refl)
      ]
