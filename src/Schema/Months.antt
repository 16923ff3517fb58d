-- ===== src/Schema/Months.antt =====
-- Which dates the partitions of the table take.
use vfobs.Prelude.{
  ℕ, zero, suc, ◌+◌, ◌*◌, ◌≤◌, ◌<◌, ◌≡◌, refl, ap, ◌∙◌, Bool, not, ◌&&◌, ◌==◌, ltb, List, [], ◌∷◌,
  arith, Bool-cases, inl, inr, if◌then◌else◌, length, select,
}
use vfobs.Prelude.Result.{ok}
use vfobs.Schema.{
  Date, Partition, max_year, month_floor, next_month, advance, partition_for_offset,
  partitions_from, upgrade_partitions, before, takes,
}

-- The number of a date's month.
abbrev pub months : Date → ℕ
months d = 12 * d.year + d.month

pub record IsDate (d : Date) : Type 0 where
  pub month_low : 1 ≤ d.month
  pub month_high : d.month ≤ 12
  pub day_low : 1 ≤ d.day

-- The first day of a month.
pub record IsFirst (d : Date) : Type 0 where
  pub low : 1 ≤ d.month
  pub high : d.month ≤ 12
  pub first : d.day ≡ 1

before_lem : (d s : Date) → IsDate d → IsFirst s → before d s ≡ ltb (months d) (months s)
before_lem d s h f = ground (arith, h.month_low, h.month_high, h.day_low, f.low, f.high, f.first)

next_month_lem :
    (d : Date)
    → IsFirst d
    → months d + 1 ≤ 12 * max_year + 12
    → (e : Date) × (next_month d ≡ ok e) × IsFirst e × (months e ≡ months d + 1)
unfolding next_month
next_month_lem d f h = elim (Bool-cases (d.month == 12)) [
  | inl e ↦ (
    record { year = d.year + 1; month = 1; day = 1 },
    ground (arith, e, h),
    record { low = omega arith; high = omega arith; first = refl },
    ground (arith, e),
  )
  | inr e ↦ (
    record { year = d.year; month = d.month + 1; day = 1 },
    ground (arith, e),
    record { low = omega arith; high = ground (arith, e, f.high); first = refl },
    omega arith,
  )
]

advance_lem :
    (n : ℕ) (d : Date)
    → IsFirst d
    → months d + n ≤ 12 * max_year + 12
    → (e : Date) × (advance n d ≡ ok e) × IsFirst e × (months e ≡ months d + n)
unfolding advance
advance_lem zero d f h = (d, refl, f, omega arith)
advance_lem (suc n) d f h =
    let (e, r, g, m) = next_month_lem d f (omega arith) in
    let (e', r', g', m') = advance_lem n e g (omega (arith, m, h)) in
    (e', rw r r', g', omega (arith, m, m'))

-- The partition of the month with a number.
record IsMonth (p : Partition) (k : ℕ) : Type 0 where
  from_first : IsFirst p.from_date
  to_first : IsFirst p.to_date
  from_month : months p.from_date ≡ k
  to_month : months p.to_date ≡ k + 1

partition_for_offset_lem :
    (today : Date) (n : ℕ)
    → IsDate today
    → months today + n + 1 ≤ 12 * max_year + 12
    → (p : Partition) × (partition_for_offset today n ≡ ok p) × IsMonth p (months today + n)
unfolding partition_for_offset month_floor
partition_for_offset_lem today n t h =
    let floor : Date = record { year = today.year; month = today.month; day = 1 } in
    let (start, r, f, m) =
      advance_lem n floor (record { low = t.month_low; high = t.month_high; first = refl })
        (omega (arith, h)) in
    let (end, r', f', m') = next_month_lem start f (omega (arith, m, h)) in
    (
      record { name_year = start.year; name_month = start.month; from_date = start; to_date = end },
      rw (r, r') refl,
      record { from_first = f; to_first = f'; from_month = m; to_month = omega (arith, m, m') },
    )

takes_lem :
    (d : Date) (p : Partition) (k : ℕ)
    → IsDate d
    → IsMonth p k
    → takes d p ≡ (not (ltb (months d) k) && ltb (months d) (k + 1))
takes_lem d p k h m =
    rw
      (
        before_lem d p.from_date h m.from_first,
        before_lem d p.to_date h m.to_first,
        m.from_month,
        m.to_month,
      )
      refl

-- The date lies in one of `n` months from the month `k` on.
abbrev pub is_within : ℕ → ℕ → Date → Bool
is_within k n d = not (ltb (months d) k) && ltb (months d) (k + n)

partitions_from_lem :
    (today d : Date) (n offset : ℕ)
    → IsDate today
    → IsDate d
    → months today + offset + n ≤ 12 * max_year + 12
    → (ps : List Partition) × (partitions_from today offset n ≡ ok ps)
      × (length (select (takes d) ps) ≡ (if is_within (months today + offset) n d then 1 else 0))
unfolding partitions_from
partitions_from_lem today d zero offset t h b = ([], refl, ground arith)
partitions_from_lem today d (suc n) offset t h b =
    let (p, r, m) = partition_for_offset_lem today offset t (omega (arith, b)) in
    let (ps, r', c) = partitions_from_lem today d n (offset + 1) t h (omega (arith, b)) in
    (p ∷ ps, rw (r, r') refl, ground (arith, takes_lem d p (months today + offset) h m, c))

-- Run on any day before the year 9999, the migration creates its partitions, and a date of the
-- current month or of the two that follow is taken by exactly one of them, every other date by none.
pub upgrade_partitions_lem :
    (today d : Date)
    → IsDate today
    → today.year < max_year
    → IsDate d
    → (ps : List Partition) × (upgrade_partitions today ≡ ok ps)
      × (length (select (takes d) ps) ≡ (if is_within (months today) 3 d then 1 else 0))
unfolding upgrade_partitions
upgrade_partitions_lem today d t y h =
    let (ps, r, c) = partitions_from_lem today d 3 0 t h (omega (arith, y, t.month_high)) in
    let same : months today + 0 ≡ months today = omega arith in
    (ps, r, c ∙ ap (λ k. if is_within k 3 d then 1 else 0) same)
