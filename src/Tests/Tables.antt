-- ===== src/Tests/Tables.antt =====
-- A table of rows as the database, with its laws.
use Prim.Native.Char.{code}
use mathlib.Core.Option
use mathlib.Core.Option.{some-injective}
use vfobs.Repository.Model.{CostSummary}
use vfobs.Repository.Postgres.Costs.{
  RollupQuery, CostDatabase, CostLaws, row_entries, keep_last, aggregate, casts,
}
use vfobs.Events.Namespaces.{execution_summary_of}
use vfobs.Prelude.Int.{negsuc, ℤ}
use vfobs.Prelude.Result.{raise, db_api_error}
use vfobs.Prelude.{
  ◌==◌, ◌∙◌, str_eq, inl, inr, Bool-cases, if◌then◌else◌, ℕ, ◌+◌, ◌≡◌, refl, String, Bool, true,
  not, ◌&&◌, Option, none, some, List, [], ◌∷◌, ◌++◌, arith, take, last?, length, select, ap,
}
use vfobs.Prelude.Dict
use vfobs.Prelude.Dict.{string_key}
use vfobs.Prelude.Int.{pos, pos_part, ltb_ℤ}
use vfobs.Prelude.Result.{Result, ok, Exception}
use vfobs.Events.Namespaces.{ExecutionSummary, Payload}
use vfobs.Repository.Postgres.Sql.{
  takes_params, in_bigint, RawData, parsed, raw, Row, Param, number, Params, Statement,
  select_by_id, page, last_row, count_rows, all_hold, order_by_id, at_most_one, Database,
  DatabaseLaws,
}
use vfobs.Repository.Postgres.Rows.{json_of}
use vfobs.Repository.Postgres.Reads.{KeepsJson}
use vfobs.Tests.Data.{platform}
use vfobs.Tests.Codecs.{
  has_no_costs, dump_known, summary_in, is_known, codec, has_no_costs_lem, has_some_costs_lem,
}

abbrev pub TableRow : Type 0
TableRow = ℕ × Row platform String

-- The rows and the next id.
abbrev pub TableState : Type 0
TableState = List TableRow × ℕ

abbrev to_jsonb : RawData String → RawData String
to_jsonb (parsed j) = parsed j
to_jsonb (raw s) = parsed s

abbrev limited : Option Param → List TableRow → List TableRow
limited (some (number i)) l = take (pos_part i) l
limited _ l = []

abbrev by_id : Option Param → List TableRow → List TableRow
by_id (some (number i)) l = select (λ x. not (ltb_ℤ (pos x.0) i) && not (ltb_ℤ i (pos x.0))) l
by_id _ l = []

unfoldable pub select_rows : Statement → Params → TableState → List TableRow
unfolding Dict.get order_by_id
select_rows select_by_id params s = by_id (Dict.get "id" params) s.0
select_rows (page cs) params s =
    limited (Dict.get "limit" params) (order_by_id (select (all_hold params cs) s.0))
select_rows (last_row cs) params s =
    at_most_one (last? (order_by_id (select (all_hold params cs) s.0)))
select_rows _ params s = []

-- The character 0 ends no text of the encoding.
abbrev pub no_zero : String → Bool
no_zero String.[] = true
no_zero (String.◌∷◌ c s) = let rest = no_zero s in not (code c == 0) && rest

-- The driver raises for other parameters.
unfoldable pub if_taken : {A : Type 0} → Params → A → Result Exception A
if_taken params a = if takes_params no_zero params then ok a else raise db_api_error

abbrev pub select_count : Statement → Params → TableState → ℕ
select_count (count_rows cs) params s = length (select (all_hold params cs) s.0)
select_count _ params s = 0

abbrev pub insert_into : Row platform String → TableState → Result Exception (TableState × ℕ)
insert_into r s =
    ok ((s.0 ++ (s.1, record r { raw_data = to_jsonb r.raw_data }) ∷ [], s.1 + 1), s.1)

abbrev pub database : Database platform String
database = record {
  State = TableState;
  insert = insert_into;
  rows = λ q params s. if_taken params (select_rows q params s);
  scalar = λ q params s. if_taken params (select_count q params s);
}

unfoldable pub database-laws : DatabaseLaws database
unfolding select_rows Dict.get if_taken
database-laws = record {
  table = λ s. s.0;
  next_id = λ s. s.1;
  accepts = λ s r. in_bigint (pos s.1);
  encodes = no_zero;
  jsonb = to_jsonb;
  insert_law = λ s r h. (
    (s.0 ++ (s.1, record r { raw_data = to_jsonb r.raw_data }) ∷ [], s.1 + 1),
    s.1,
    refl,
    omega arith,
    h,
    refl,
    refl,
  );
  by_id_law = λ s i h. rw (if_taken, h) refl;
  page_law = λ s cs params n b t h.
      rw (if_taken, t) (ap (λ o. ok (limited o (order_by_id (select (all_hold params cs) s.0)))) h);
  last_law = λ s cs params b t. rw (if_taken, t) refl;
  count_law = λ s cs params b t. rw (if_taken, t) refl;
}

pub keeps_json : KeepsJson codec database-laws
unfolding database-laws
keeps_json = record { json_of-jsonb = λ d. same d }
  where
    same : (d : RawData String) → json_of codec (to_jsonb d) ≡ json_of codec d
    same (parsed j) = refl
    same (raw t) = refl

-- The summary in the column `data`, and its members.
abbrev pub summary_of_data : RawData String → Option (ExecutionSummary platform)
summary_of_data (parsed s) = summary_in s
summary_of_data (raw s) = summary_in s

abbrev member_at : String → RawData String → Option (ExecutionSummary platform)
member_at key d = if str_eq key "execution_summary" then summary_of_data d else none

abbrev int_at : String → ExecutionSummary platform → Option ℤ
int_at key es =
    if str_eq key "num_turns"
    then es.num_turns
    else if str_eq key "total_tokens"
    then es.total_tokens
    else none

abbrev numeric_at : String → ExecutionSummary platform → Option ℕ
numeric_at key es = if str_eq key "cost_usd" then es.cost_usd else none

abbrev pub sum_known : List (Option ℕ) → ℕ
sum_known [] = 0
sum_known (none ∷ l) = sum_known l
sum_known (some n ∷ l) = n + sum_known l

abbrev pub in_int4 : ℤ → Bool
in_int4 i = not (ltb_ℤ (pos 2147483647) i) && not (ltb_ℤ i (negsuc 2147483647))

abbrev costs_with :
    (RollupQuery → Params → TableState → Result Exception (CostSummary platform))
    → CostDatabase database
costs_with row = record {
  Object = ExecutionSummary platform;
  member_at = member_at;
  int_at = int_at;
  numeric_at = numeric_at;
  sum_cost = sum_known;
  in_int = in_int4;
  cost_row = row;
}

abbrev no_row : CostDatabase database
no_row = costs_with (λ q params s. raise db_api_error)

unfoldable pub row_for : RollupQuery → Params → TableState → Result Exception (CostSummary platform)
unfolding row_entries keep_last aggregate order_by_id
row_for q params s =
    let found = row_entries no_row q params (order_by_id s.0) in
    if takes_params no_zero params && casts no_row found
    then ok (aggregate no_row (keep_last found))
    else raise db_api_error

abbrev pub costs : CostDatabase database
costs = costs_with row_for

summary_in_lem :
    (p : Payload platform) → is_known p ≡ true → summary_in (dump_known p) ≡ execution_summary_of p
unfolding execution_summary_of
summary_in_lem (Payload.task_claimed d) h = refl
summary_in_lem (Payload.judge_started d) h = refl
summary_in_lem (Payload.task_state_changed d) h =
    elim (Bool-cases (has_no_costs d.execution_summary)) [
      | inl e ↦ rw (has_no_costs_lem d.execution_summary e) refl
      | inr e ↦ rw (has_some_costs_lem d.execution_summary (ground (arith, h, e))) refl
    ]
summary_in_lem _ h = absurd (cc h)

pub costs-laws : CostLaws codec database-laws costs
unfolding row_for row_entries aggregate Dict.get database-laws
costs-laws = record {
  summary_law = λ p d h e. bare (summary_of_data d) ∙ read p d h e;
  cost_law = λ s q params b t fits. rw (row_for, t, fits) refl;
}
  where
    read :
        (p : Payload platform) (d : RawData String)
        → is_known p ≡ true
        → json_of codec d ≡ some (dump_known p)
        → summary_of_data d ≡ execution_summary_of p
    read p (parsed j) h e = ap summary_in (some-injective j (dump_known p) e) ∙ summary_in_lem p h
    read p (raw t) h e = ap summary_in (some-injective t (dump_known p) e) ∙ summary_in_lem p h

    bare :
        (o : Option (ExecutionSummary platform))
        → Option.map
            (λ es. record {
              num_turns = int_at "num_turns" es;
              total_tokens = int_at "total_tokens" es;
              cost_usd = numeric_at "cost_usd" es;
            })
            o
          ≡ o
    bare none = refl
    bare (some es) = refl
