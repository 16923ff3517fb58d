-- ===== src/Schema/Grants.antt =====
-- What the role `vfobs_app` may do: the grants of alembic/versions/0001_initial_schema.py.
use vfobs.Prelude.{◌≡◌, ◌⊎◌, inl, inr, refl, Bool, true, false, ◌&&◌, ◌||◌, List, [], ◌∷◌}
use vfobs.Repository.Postgres.Costs.{RollupQuery}
use vfobs.Repository.Postgres.Sql.{
  Statement, insert_event, select_by_id, page, last_row, count_rows,
}

pub data Privilege : Type 0 where
  usage select insert update delete truncate : Privilege

-- The kinds of objects of the schema that have privileges.
pub data Object : Type 0 where
  schema table sequence : Object

-- The statements GRANT of `upgrade`, and those of its default privileges, which are the same for the
-- tables and sequences of the schema that come later.
abbrev pub grants : List (Privilege × Object)
grants =
    (usage, schema)
    ∷ (select, table)
    ∷ (insert, table)
    ∷ (usage, sequence)
    ∷ (select, sequence)
    ∷ []

abbrev pub default_privileges : List (Privilege × Object)
default_privileges = (select, table) ∷ (insert, table) ∷ (usage, sequence) ∷ (select, sequence) ∷ []

same_privilege : Privilege → Privilege → Bool
same_privilege usage usage = true
same_privilege select select = true
same_privilege insert insert = true
same_privilege update update = true
same_privilege delete delete = true
same_privilege truncate truncate = true
same_privilege _ _ = false

same_object : Object → Object → Bool
same_object schema schema = true
same_object table table = true
same_object sequence sequence = true
same_object _ _ = false

-- The role has the privilege.
unfoldable pub may : List (Privilege × Object) → Privilege × Object → Bool
unfolding same_privilege same_object
may [] wanted = false
may (g ∷ given) wanted =
    let rest = may given wanted in (same_privilege g.0 wanted.0 && same_object g.1 wanted.1) || rest

-- What the repository sends: its statements, and the query of `cost_summary`.
pub data Sent : Type 0 where
  statement : Statement → Sent
  rollup : RollupQuery → Sent

-- Documented of PostgreSQL: what a statement needs. The id of an INSERT comes from the sequence of
-- its BIGSERIAL column, and RETURNING reads it.
abbrev needs_of : Statement → List (Privilege × Object)
needs_of insert_event = (usage, schema) ∷ (insert, table) ∷ (usage, sequence) ∷ (select, table) ∷ []
needs_of select_by_id = (usage, schema) ∷ (select, table) ∷ []
needs_of (page clauses) = (usage, schema) ∷ (select, table) ∷ []
needs_of (last_row clauses) = (usage, schema) ∷ (select, table) ∷ []
needs_of (count_rows clauses) = (usage, schema) ∷ (select, table) ∷ []

abbrev pub needs : Sent → List (Privilege × Object)
needs (statement q) = needs_of q
needs (rollup q) = (usage, schema) ∷ (select, table) ∷ []

abbrev pub all_granted : List (Privilege × Object) → Bool
all_granted [] = true
all_granted (w ∷ wanted) = may grants w && all_granted wanted

sent_granted : (q : Sent) → all_granted (needs q) ≡ true
unfolding may
sent_granted (statement insert_event) = refl
sent_granted (statement _) = refl
sent_granted (rollup q) = refl

-- On the tables of the schema, those that are there and those that come later.
abbrev pub may_on_tables : Privilege → Bool
may_on_tables p = may grants (p, table) || may default_privileges (p, table)

-- The role may send every statement of the repository, whatever their conditions; and every privilege
-- that it has on tables is SELECT or INSERT, so that the log of events is append-only to it.
pub grants_lem :
    (q : Sent) (p : Privilege)
    → may_on_tables p ≡ true
    → (all_granted (needs q) ≡ true) × ((p ≡ select) ⊎ (p ≡ insert))
unfolding may
grants_lem q select h = (sent_granted q, inl refl)
grants_lem q insert h = (sent_granted q, inr refl)
grants_lem q _ h = absurd (cc h)
