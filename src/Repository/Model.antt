-- ===== src/Repository/Model.antt =====
-- The read models and the shared helpers of event_repository.py.
use vfobs.Prelude.{ℕ, ◌≤◌, ◌≡◌, String, Option, Bool, false, arith, none, some}
use vfobs.Prelude.Int.{◌+ℤ◌, ℤ, pos, negsuc, pos_part, min_ℤ, max_ℤ, ltb_ℤ}
use vfobs.Events.Platform.{Platform}
use vfobs.Events.Base.{Event}

pub record StoredEvent (P : Platform) : Type 0 where
  pub id : ℕ
  pub event : Event P

pub record CostSummary (P : Platform) : Type 0 where
  pub total_cost_usd : P.Float
  pub total_tokens : ℤ
  pub total_turns : ℤ
  pub task_count : ℕ
  pub sample_event_count : ℕ

-- The keyword arguments of `find_filtered`, but for the cursor and the limit.
pub record EventFilter : Type 0 where
  pub workgraph_id : Option String
  pub task_id : Option String
  pub agent_id : Option String
  pub type_ : Option String
  pub type_namespace : Option String
  pub org_id : Option String

-- `_MAX_LIMIT`
abbrev pub max_limit : ℤ
max_limit = pos 1000

-- `_clamp_limit`
unfoldable pub clamp_limit : ℤ → ℤ
clamp_limit limit = max_ℤ (pos 1) (min_ℤ limit max_limit)

-- The clamped limit as a number.
abbrev pub page_size : ℤ → ℕ
page_size limit = pos_part (clamp_limit limit)

-- `from_id is not None and eid < from_id`
abbrev pub before_cursor : Option ℤ → ℕ → Bool
before_cursor none eid = false
before_cursor (some from_id) eid = ltb_ℤ (pos eid) from_id

-- `if x is not None: total += x`
abbrev pub add_int : ℤ → Option ℤ → ℤ
add_int total none = total
add_int total (some x) = total +ℤ x

abbrev pub add_cost : (P : Platform) → P.Float → Option P.Float → P.Float
add_cost P total none = total
add_cost P total (some x) = P.float_add total x

-- A clamped limit is a natural number, from 1 to 1000.
pub clamp_limit_bounds :
    (limit : ℤ)
    → (clamp_limit limit ≡ pos (page_size limit)) × (1 ≤ page_size limit) × (page_size limit ≤ 1000)
unfolding clamp_limit
clamp_limit_bounds (pos n) = ground arith
clamp_limit_bounds (negsuc n) = ground arith

-- A limit in range is kept.
pub clamp_limit_of_range : (n : ℕ) → 1 ≤ n → n ≤ 1000 → clamp_limit (pos n) ≡ pos n
unfolding clamp_limit
clamp_limit_of_range n h k = ground arith
