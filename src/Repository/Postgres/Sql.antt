-- ===== src/Repository/Postgres/Sql.antt =====
-- The table `vfobs.events` and the statements on it: what event_repository.py takes from Postgres
-- through SQLAlchemy and asyncpg.
use Prim.Native.String.{◌++◌ as str_append}
use vfobs.Prelude.{
  ℕ, ◌+◌, ◌≤◌, ◌≡◌, String, str_eq, Bool, true, false, not, ◌&&◌, Option, none, some, List, [], ◌∷◌,
  ◌++◌, map, take, last?, length, select, ltb, opt_eq, is_some, if◌then◌else◌,
}
use vfobs.Prelude.Dict
use vfobs.Prelude.Dict.{string_key}
use vfobs.Prelude.Int.{ℤ, pos, negsuc, ltb_ℤ}
use vfobs.Prelude.Result.{Result, ok, Exception}
use vfobs.Events.Platform.{Platform}
use vfobs.Events.Classes.{before_dot}

-- The value of the column `data`: JSON that the driver has parsed, or its text.
pub data RawData (Json : Type 0) : Type 0 where
  parsed : Json → RawData Json
  raw : String → RawData Json

-- The columns but for `id` and `created_at`.
pub record Row (P : Platform) (Json : Type 0) : Type 0 where
  pub v : ℤ
  pub workgraph_id : String
  pub task_id : Option String
  pub agent_id : Option String
  pub trace_id : Option String
  pub source : String
  pub type_ : String
  pub timestamp : P.Datetime
  pub raw_data : RawData Json
  pub classification : String
  pub org_id : String
  pub cluster_id : String

-- A value that a statement's parameter is bound to.
pub data Param : Type 0 where
  text : String → Param
  number : ℤ → Param

abbrev pub Params : Type 0
Params = List (String × Param)

-- The columns of texts that a condition may name.
pub data Column : Type 0 where
  workgraph_id task_id agent_id org_id type_ : Column

abbrev pub column_name : Column → String
column_name Column.workgraph_id = "workgraph_id"
column_name Column.task_id = "task_id"
column_name Column.agent_id = "agent_id"
column_name Column.org_id = "org_id"
column_name Column.type_ = "type"

-- The conditions that the repository writes, joined by AND.
pub data Clause : Type 0 where
  always : Clause
  equals : Column → String → Clause
  at_least : String → Clause
  namespace : String → Clause

abbrev pub render : Clause → String
render always = "1 = 1"
render (equals c p) = str_append (column_name c) (str_append " = :" p)
render (at_least p) = str_append "id >= :" p
render (namespace p) = str_append "split_part(type, '.', 1) = :" p

-- `" AND ".join(clauses)`
unfoldable pub join_and : List String → String
join_and [] = ""
join_and (c ∷ []) = c
join_and (c ∷ d ∷ cs) = str_append c (str_append " AND " (join_and (d ∷ cs)))

module _ {P : Platform} {Json : Type 0} where
  -- The value in a column; NULL is None.
  abbrev pub column_of : Column → Row P Json → Option String
  column_of Column.workgraph_id r = some r.workgraph_id
  column_of Column.task_id r = r.task_id
  column_of Column.agent_id r = r.agent_id
  column_of Column.org_id r = some r.org_id
  column_of Column.type_ r = some r.type_

  -- A condition on a row, with the value of its parameter. NULL equals nothing.
  abbrev pub test : Clause → Param → ℕ × Row P Json → Bool
  test (equals c p) (text s) x = opt_eq (column_of c x.1) s
  test (at_least p) (number i) x = not (ltb_ℤ (pos x.0) i)
  test (namespace p) (text s) x = str_eq (before_dot x.1.type_) s
  test _ _ x = false

  -- `ORDER BY id ASC`
  unfoldable pub insert_row : ℕ × Row P Json → List (ℕ × Row P Json) → List (ℕ × Row P Json)
  insert_row x [] = x ∷ []
  insert_row x (y ∷ ys) = if ltb y.0 x.0 then y ∷ insert_row x ys else x ∷ y ∷ ys

  unfoldable pub order_by_id : List (ℕ × Row P Json) → List (ℕ × Row P Json)
  order_by_id [] = []
  order_by_id (x ∷ xs) = insert_row x (order_by_id xs)

-- The name of a condition's parameter.
abbrev pub param_of : Clause → Option String
param_of always = none
param_of (equals c p) = some p
param_of (at_least p) = some p
param_of (namespace p) = some p

abbrev pub bound_in : Params → Option String → Bool
bound_in params none = true
bound_in params (some p) = is_some (Dict.get p params)

abbrev pub all_bound : Params → List Clause → Bool
all_bound params [] = true
all_bound params (c ∷ cs) = bound_in params (param_of c) && all_bound params cs

module _ {P : Platform} {Json : Type 0} where
  abbrev pub test_opt : Clause → Option Param → ℕ × Row P Json → Bool
  test_opt c none x = false
  test_opt c (some v) x = test c v x

  abbrev pub holds_at : Params → Option String → Clause → ℕ × Row P Json → Bool
  holds_at params none c x = true
  holds_at params (some p) c x = test_opt c (Dict.get p params) x

  abbrev pub holds : Params → Clause → ℕ × Row P Json → Bool
  holds params c x = holds_at params (param_of c) c x

  abbrev pub all_hold : Params → List Clause → ℕ × Row P Json → Bool
  all_hold params [] x = true
  all_hold params (c ∷ cs) x = holds params c x && all_hold params cs x

-- The statements of the repository; each WHERE is a list of conditions.
pub data Statement : Type 0 where
  insert_event select_by_id : Statement
  page last_row count_rows : List Clause → Statement

-- `_SELECT_COLS`
abbrev pub select_cols : String
select_cols =
    "SELECT id, v, workgraph_id, task_id, agent_id, trace_id, source, type, timestamp, data, classification, org_id, cluster_id, created_at FROM vfobs.events"

-- The text of a statement, but for the lengths of its white space.
unfoldable pub statement_text : Statement → String
unfolding join_and
statement_text insert_event =
    "INSERT INTO vfobs.events ( v, workgraph_id, task_id, agent_id, trace_id, source, type, timestamp, data, classification, org_id, cluster_id ) VALUES ( :v, :workgraph_id, :task_id, :agent_id, :trace_id, :source, :type, :timestamp, CAST(:data AS JSONB), :classification, :org_id, :cluster_id ) RETURNING id"
statement_text select_by_id = str_append select_cols " WHERE id = :id"
statement_text (page cs) =
    str_append select_cols
      (str_append " WHERE " (str_append (join_and (map render cs)) " ORDER BY id ASC LIMIT :limit"))
statement_text (last_row cs) =
    str_append select_cols
      (str_append " WHERE " (str_append (join_and (map render cs)) " ORDER BY id DESC LIMIT 1"))
statement_text (count_rows cs) =
    str_append "SELECT COUNT(*) AS n FROM vfobs.events WHERE " (join_and (map render cs))

-- `LIMIT 1`: a row, where there is one.
abbrev pub at_most_one : {A : Type 0} → Option A → List A
at_most_one none = []
at_most_one (some x) = x ∷ []

-- What the driver takes for a parameter: an integer in the range of BIGINT, and a text that the
-- encoding of the database has, which none with the character 0 is.
abbrev pub in_bigint : ℤ → Bool
in_bigint i = not (ltb_ℤ (pos 9223372036854775807) i) && not (ltb_ℤ i (negsuc 9223372036854775807))

abbrev pub takes_param : (String → Bool) → Param → Bool
takes_param encodes (text s) = encodes s
takes_param encodes (number i) = in_bigint i

abbrev pub takes_params : (String → Bool) → Params → Bool
takes_params encodes [] = true
takes_params encodes ((name, value) ∷ params) =
    takes_param encodes value && takes_params encodes params

-- What the repository calls: the INSERT of a row, and statements that give rows, each with its `id`,
-- or a number. Each may raise what the driver raises.
pub record Database (P : Platform) (Json : Type 0) : Type 1 where
  pub State : Type 0
  pub insert : Row P Json → State → Result Exception (State × ℕ)
  pub rows : Statement → Params → State → Result Exception (List (ℕ × Row P Json))
  pub scalar : Statement → Params → State → Result Exception ℕ

-- Documented of Postgres and its driver. There is a table, and a sequence for `id` that stands above
-- all ids of the table. An INSERT of a row that the table accepts adds it under the sequence's next
-- value or a later one; JSONB keeps the value of a JSON text, not the text, and TIMESTAMPTZ the point
-- in time; an id is a BIGINT. A SELECT whose parameters the driver takes gives the rows for which
-- every condition holds, ordered and limited as it says; nothing is said of other parameters, for
-- which the driver raises. The connection is there.
pub record DatabaseLaws {P : Platform} {Json : Type 0} (D : Database P Json) : Type 1 where
  pub table : D.State → List (ℕ × Row P Json)
  pub next_id : D.State → ℕ
  pub accepts : D.State → Row P Json → Bool
  pub jsonb : RawData Json → RawData Json
  pub encodes : String → Bool
  pub insert_law :
      (s : D.State) (r : Row P Json)
      → accepts s r ≡ true
      → (s' : D.State) × (eid : ℕ) × (D.insert r s ≡ ok (s', eid))
        × (next_id s ≤ eid)
        × (in_bigint (pos eid) ≡ true)
        × (next_id s' ≡ eid + 1)
        × (table s' ≡ table s ++ (eid, record r { raw_data = jsonb r.raw_data }) ∷ [])
  pub by_id_law :
      (s : D.State) (i : ℤ)
      → in_bigint i ≡ true
      → D.rows select_by_id (("id", number i) ∷ []) s
        ≡ ok (select (λ x. not (ltb_ℤ (pos x.0) i) && not (ltb_ℤ i (pos x.0))) (table s))
  pub page_law :
      (s : D.State) (cs : List Clause) (params : Params) (n : ℕ)
      → all_bound params cs ≡ true
      → takes_params encodes params ≡ true
      → Dict.get "limit" params ≡ some (number (pos n))
      → D.rows (page cs) params s
        ≡ ok (take n (order_by_id (select (all_hold params cs) (table s))))
  pub last_law :
      (s : D.State) (cs : List Clause) (params : Params)
      → all_bound params cs ≡ true
      → takes_params encodes params ≡ true
      → D.rows (last_row cs) params s
        ≡ ok (at_most_one (last? (order_by_id (select (all_hold params cs) (table s)))))
  pub count_law :
      (s : D.State) (cs : List Clause) (params : Params)
      → all_bound params cs ≡ true
      → takes_params encodes params ≡ true
      → D.scalar (count_rows cs) params s ≡ ok (length (select (all_hold params cs) (table s)))
