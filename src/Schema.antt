-- ===== src/Schema.antt =====
-- The table `vfobs.events` as alembic/versions/0001_initial_schema.py creates it: the monthly
-- partitions of its range of timestamps. A timestamp counts by its date.
pub mod Months
pub mod Checks
pub mod Grants
pub mod SyncUrl
use vfobs.Prelude.{
  ℕ, zero, suc, ◌+◌, Bool, false, not, ◌&&◌, ◌||◌, ◌==◌, ltb, List, [], ◌∷◌, if◌then◌else◌,
}
use vfobs.Prelude.Result.{Result, ok, raise, Exception, value_error, ◌>>=◌}

-- Python's `date`, whose years end at 9999.
pub record Date : Type 0 where
  pub year : ℕ
  pub month : ℕ
  pub day : ℕ

abbrev pub max_year : ℕ
max_year = 9999

-- `_month_floor`
unfoldable pub month_floor : Date → Date
month_floor d = record d { day = 1 }

-- `_next_month`
unfoldable pub next_month : Date → Result Exception Date
next_month d =
    if d.month == 12
    then (if ltb max_year (d.year + 1)
        then raise value_error
        else ok (record { year = d.year + 1; month = 1; day = 1 }))
    else ok (record { year = d.year; month = d.month + 1; day = 1 })

-- The loop of `_partition_for_offset`.
unfoldable pub advance : ℕ → Date → Result Exception Date
unfolding next_month
advance zero start = ok start
advance (suc offset) start = next_month start >>= λ next. advance offset next

-- A partition: the year and month of its name, and its bounds.
pub record Partition : Type 0 where
  pub name_year : ℕ
  pub name_month : ℕ
  pub from_date : Date
  pub to_date : Date

-- `_partition_for_offset`
unfoldable pub partition_for_offset : Date → ℕ → Result Exception Partition
unfolding month_floor advance
partition_for_offset today offset = do
  start ← advance offset (month_floor today)
  end ← next_month start
  ok (record { name_year = start.year; name_month = start.month; from_date = start; to_date = end })

-- `for offset in range(n)`, from an offset on.
unfoldable pub partitions_from : Date → ℕ → ℕ → Result Exception (List Partition)
unfolding partition_for_offset
partitions_from today offset zero = ok []
partitions_from today offset (suc n) = do
  p ← partition_for_offset today offset
  rest ← partitions_from today (offset + 1) n
  ok (p ∷ rest)

-- The partitions that `upgrade` creates.
unfoldable pub upgrade_partitions : Date → Result Exception (List Partition)
unfolding partitions_from
upgrade_partitions today = partitions_from today 0 3

-- Documented of PostgreSQL: dates are ordered, and a partition takes what lies from its lower bound
-- to before its upper bound.
abbrev pub before : Date → Date → Bool
before d e =
    ltb d.year e.year
    || (d.year == e.year && (ltb d.month e.month || (d.month == e.month && ltb d.day e.day)))

abbrev pub takes : Date → Partition → Bool
takes d p = not (before d p.from_date) && before d p.to_date
