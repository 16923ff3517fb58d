-- ===== src/Tests/Schemas.antt =====
-- The schema, the grants, the schemas of the events and the URL of the migrations, at concrete inputs.
use vfobs.Prelude.{List, ℕ, ◌+◌, arith, ◌≡◌, ◌⊎◌, refl, true, false, [], ◌∷◌}
use vfobs.Prelude.Int.{pos}
use vfobs.Prelude.Result.{ok}
use vfobs.Schema.{Date, Partition, upgrade_partitions}
use vfobs.Schema.Months.{IsDate}
use vfobs.Schema.Checks.{takes_row, is_smallint, takes_row-event_to_row}
use vfobs.Schema.Grants.{may, select, insert, all_granted, needs, statement, grants_lem}
use vfobs.Schema.SyncUrl.{resolve_sync_url, resolve_sync_url_lem}
use vfobs.Repository.Postgres.Sql.{page, always}
use vfobs.Repository.Postgres.Rows.{event_to_row}
use vfobs.Tests.Data.{claim}
use vfobs.Tests.Codecs.{codec}

-- A time is the number of the day in November 2026.
abbrev date_of : ℕ → Date
date_of n = record { year = 2026; month = 11; day = n + 1 }

abbrev today : Date
today = date_of 20

today-IsDate : (n : ℕ) → IsDate (date_of n)
today-IsDate n = record { month_low = omega arith; month_high = omega arith; day_low = omega arith }

-- A version that the model takes and the column does not.
far_version :
    (ps : List Partition) × (upgrade_partitions today ≡ ok ps)
    × (takes_row date_of ps (event_to_row codec (record claim { v = pos 40000 })) ≡ false)
unfolding is_smallint
far_version =
    takes_row-event_to_row codec date_of today (record claim { v = pos 40000 }) (today-IsDate 20)
      (omega arith) (today-IsDate claim.timestamp)

page_granted :
    (all_granted (needs (statement (page (always ∷ [])))) ≡ true)
    × ((insert ≡ select) ⊎ (insert ≡ insert))
unfolding may
page_granted = grants_lem (statement (page (always ∷ []))) insert refl

async_url :
    resolve_sync_url (λ raw. "postgresql+asyncpg") "postgresql+asyncpg://db/vfobs"
    ≡ "postgresql+psycopg://db/vfobs"
async_url =
    resolve_sync_url_lem (λ raw. "postgresql+asyncpg") "postgresql+asyncpg" "://db/vfobs" refl
