-- ===== src/Tests/Codecs.antt =====
-- A codec for three kinds of payload.
use Prim.Native.Char.{code}
use vfobs.Prelude.Int.{negsuc, ℤ}
use vfobs.Prelude.{
  ◌==◌, str_eq, eq_iff, is_some, ◌||◌, inl, inr, Option-cases, Bool-cases, if◌then◌else◌, ℕ, ◌≡◌,
  refl, String, Bool, true, false, not, ◌&&◌, Option, none, some, arith,
}
use vfobs.Prelude.Dict.{string_key}
use vfobs.Prelude.Int.{pos}
use vfobs.Events.Classes.{EventClass}
use vfobs.Events.Namespaces.{ExecutionSummary, Payload, class_of}
use vfobs.Repository.Postgres.Rows.{Codec, CodecLaws}
use vfobs.Tests.Data.{platform}

-- Two summaries that a state change may have.
abbrev pub no_costs : ExecutionSummary platform
no_costs = record { num_turns = none; total_tokens = none; cost_usd = none }

abbrev pub some_costs : ExecutionSummary platform
some_costs = record { num_turns = some (pos 2); total_tokens = some (pos 30); cost_usd = some 4 }

abbrev pub has_no_costs : Option (ExecutionSummary platform) → Bool
has_no_costs none = false
has_no_costs (some e) = not (is_some e.num_turns || (is_some e.total_tokens || is_some e.cost_usd))

abbrev is_pos : ℕ → Option ℤ → Bool
is_pos k (some (pos n)) = n == k
is_pos k _ = false

abbrev is_nat : ℕ → Option ℕ → Bool
is_nat k (some n) = n == k
is_nat k none = false

abbrev pub has_some_costs : Option (ExecutionSummary platform) → Bool
has_some_costs none = false
has_some_costs (some e) = is_pos 2 e.num_turns && (is_pos 30 e.total_tokens && is_nat 4 e.cost_usd)

-- The JSON of a claim or of a judge's start is the agent's id behind an "a", that of a change from ""
-- the new status behind an "s" where its summary is empty, and behind a "t" where it is the other.
abbrev pub dump_known : Payload platform → String
dump_known (Payload.task_claimed d) = String.◌∷◌ "a" d.claimed_by_agent_id
dump_known (Payload.judge_started d) = String.◌∷◌ "a" d.judge_agent_id
dump_known (Payload.task_state_changed d) =
    if has_no_costs d.execution_summary
    then String.◌∷◌ "s" d.to_status
    else String.◌∷◌ "t" d.to_status
dump_known _ = ""

-- The summary in such a JSON text.
abbrev pub summary_in : String → Option (ExecutionSummary platform)
summary_in String.[] = none
summary_in (String.◌∷◌ c s) =
    if code c == b's' then some no_costs else if code c == b't' then some some_costs else none

abbrev validate_known : EventClass → String → Option (Payload platform)
validate_known EventClass.task_claimed (String.◌∷◌ c s) =
    some (Payload.task_claimed (record { claimed_by_agent_id = s }))
validate_known EventClass.judge_started (String.◌∷◌ c s) =
    some (Payload.judge_started (record { judge_agent_id = s }))
validate_known EventClass.task_state_changed (String.◌∷◌ c s) = some (
    Payload.task_state_changed
      (record { from_status = ""; to_status = s; execution_summary = summary_in (String.◌∷◌ c s) }))
validate_known _ s = none

abbrev pub is_known : Payload platform → Bool
is_known (Payload.task_claimed d) = true
is_known (Payload.judge_started d) = true
is_known (Payload.task_state_changed d) =
    str_eq d.from_status ""
    && (has_no_costs d.execution_summary || has_some_costs d.execution_summary)
is_known _ = false

abbrev pub codec : Codec platform
codec = record {
  Json = String;
  dump_data = dump_known;
  dumps = λ s. s;
  loads = λ s. some s;
  validate_data = validate_known;
  is_finite = is_known;
}

pub has_no_costs_lem :
    (o : Option (ExecutionSummary platform)) → has_no_costs o ≡ true → o ≡ some no_costs
has_no_costs_lem none h = absurd (cc h)
has_no_costs_lem (some e) h = elim (Option-cases e.num_turns) [
  | inr (n, q) ↦ absurd (cc (rw q at h))
  | inl q ↦ elim (Option-cases e.total_tokens) [
    | inr (n, r) ↦ absurd (cc (rw (q, r) at h))
    | inl r ↦ elim (Option-cases e.cost_usd) [
      | inr (n, t) ↦ absurd (cc (rw (q, r, t) at h))
      | inl t ↦ rw (q, r, t) refl
    ]
  ]
]

is_pos_lem : (k : ℕ) (o : Option ℤ) → is_pos k o ≡ true → o ≡ some (pos k)
is_pos_lem k none h = absurd (cc h)
is_pos_lem k (some (pos n)) h = let e : n ≡ k = ground (arith, h) in rw e refl
is_pos_lem k (some (negsuc n)) h = absurd (cc h)

is_nat_lem : (k : ℕ) (o : Option ℕ) → is_nat k o ≡ true → o ≡ some k
is_nat_lem k none h = absurd (cc h)
is_nat_lem k (some n) h = let e : n ≡ k = ground (arith, h) in rw e refl

pub has_some_costs_lem :
    (o : Option (ExecutionSummary platform)) → has_some_costs o ≡ true → o ≡ some some_costs
has_some_costs_lem none h = absurd (cc h)
has_some_costs_lem (some e) h =
    let a = is_pos_lem 2 e.num_turns (ground (arith, h)) in
    let b = is_pos_lem 30 e.total_tokens (ground (arith, h)) in
    let c = is_nat_lem 4 e.cost_usd (ground (arith, h)) in rw (a, b, c) refl

validate-dump :
    (p : Payload platform) → is_known p ≡ true → validate_known (class_of p) (dump_known p) ≡ some p
unfolding class_of
validate-dump (Payload.task_claimed d) h = refl
validate-dump (Payload.judge_started d) h = refl
validate-dump (Payload.task_state_changed d) h =
    let same : d.from_status ≡ "" = (eq_iff d.from_status "").0 (ground (arith, h)) in
    elim (Bool-cases (has_no_costs d.execution_summary)) [
      | inl e ↦ rw (same, has_no_costs_lem d.execution_summary e) refl
      | inr e ↦ rw (same, has_some_costs_lem d.execution_summary (ground (arith, h, e))) refl
    ]
validate-dump _ h = absurd (cc h)

pub codec-laws : CodecLaws codec
codec-laws = record { loads-dumps = λ j. refl; validate-dump = validate-dump }
