-- ===== src/Schema/Checks.antt =====
-- What the table `vfobs.events` of alembic/versions/0001_initial_schema.py takes: the type of its
-- column `v`, its two CHECK constraints and its partitions. The types of a row stand for the other columns.
use vfobs.Prelude.{
  ◌≡◌, ◌<◌, refl, String, str_eq, Bool, true, false, ◌&&◌, ◌||◌, ltb, arith, List, [], ◌∷◌, length,
  select,
}
use vfobs.Prelude.Result.{ok}
use vfobs.Schema.{Date, Partition, max_year, takes, upgrade_partitions}
use vfobs.Schema.Months.{IsDate, months, is_within, upgrade_partitions_lem}
use text.Mathlib.Text.{starts_with}
use vfobs.Prelude.Int.{ℤ, pos, negsuc}
use vfobs.Events.Platform.{Platform}
use vfobs.Events.Classes.{EventClass, type_value}
use vfobs.Events.Namespaces.{class_of}
use vfobs.Events.Values.{classification_value}
use vfobs.Events.Base.{Event, Classification, internal, secret, event_type}
use vfobs.Repository.Postgres.Sql.{Row}
use vfobs.Repository.Postgres.Rows.{Codec, event_to_row}

-- SMALLINT: 16 bits with a sign.
unfoldable pub is_smallint : ℤ → Bool
is_smallint (pos n) = ltb n 32768
is_smallint (negsuc n) = ltb n 32768

-- `type ~ '^(workgraph|task|harness|gate|judge|anomaly)\.'`
unfoldable pub events_type_namespace_chk : String → Bool
events_type_namespace_chk t =
    starts_with t "workgraph."
    || starts_with t "task."
    || starts_with t "harness."
    || starts_with t "gate."
    || starts_with t "judge."
    || starts_with t "anomaly."

-- `classification IN ('public','internal','secret')`
unfoldable pub events_classification_chk : String → Bool
events_classification_chk s = str_eq s "public" || str_eq s "internal" || str_eq s "secret"

-- `PARTITION BY RANGE (timestamp)`: some partition takes the date of the timestamp.
unfoldable pub any_takes : Date → List Partition → Bool
any_takes d [] = false
any_takes d (p ∷ ps) = takes d p || any_takes d ps

-- Whether an INSERT of the row is taken. `date_of` gives the date of a point in time in the time zone
-- of the server, in which the bounds of the partitions are midnights.
unfoldable pub takes_row :
    {P : Platform} {Json : Type 0} → (P.Datetime → Date) → List Partition → Row P Json → Bool
unfolding any_takes
takes_row date_of partitions r =
    is_smallint r.v
    && events_type_namespace_chk r.type_
    && events_classification_chk r.classification
    && any_takes (date_of r.timestamp) partitions

namespace_chk-type_value : (k : EventClass) → events_type_namespace_chk (type_value k) ≡ true
unfolding events_type_namespace_chk type_value
namespace_chk-type_value EventClass.anomaly_stuck_detected = refl
namespace_chk-type_value _ = refl

classification_chk-value :
    (k : Classification) → events_classification_chk (classification_value k) ≡ true
unfolding events_classification_chk
classification_chk-value Classification.public = refl
classification_chk-value internal = refl
classification_chk-value secret = refl

any_takes-select :
    (d : Date) (ps : List Partition) → any_takes d ps ≡ ltb 0 (length (select (takes d) ps))
unfolding any_takes
any_takes-select d [] = refl
any_takes-select d (p ∷ ps) = ground (arith, any_takes-select d ps)

pub takes_row-event_to_row :
    {P : Platform} (C : Codec P) (date_of : P.Datetime → Date) (today : Date) (e : Event P)
    → IsDate today
    → today.year < max_year
    → IsDate (date_of e.timestamp)
    → (ps : List Partition) × (upgrade_partitions today ≡ ok ps)
      × (takes_row date_of ps (event_to_row C e)
          ≡ (is_smallint e.v && is_within (months today) 3 (date_of e.timestamp)))
unfolding takes_row event_to_row event_type
takes_row-event_to_row C date_of today e t y d =
    let (ps, made, count) = upgrade_partitions_lem today (date_of e.timestamp) t y d in
    (
      ps,
      made,
      ground (
        arith,
        namespace_chk-type_value (class_of e.payload),
        classification_chk-value e.classification,
        any_takes-select (date_of e.timestamp) ps,
        count,
      ),
    )
