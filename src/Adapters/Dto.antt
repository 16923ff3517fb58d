-- ===== src/Adapters/Dto.antt =====
-- The typed projections of vtaskforge resources: src/vfobs/adapters/dto.py.
use vfobs.Prelude.{String, Bool, Option}
use vfobs.Prelude.Int.{ℤ}

-- `int | str`
pub data ResourceId : Type 0 where
  number : ℤ → ResourceId
  text : String → ResourceId

pub record VtfPrincipal : Type 0 where
  pub user_id : ResourceId
  pub username : Option String
  pub user_type : Option String
  pub is_staff : Bool

pub record WorkgraphMetadata : Type 0 where
  pub id : ResourceId
  pub name : Option String
  pub status : Option String
  pub description : Option String
  pub order : Option ℤ
  pub workplan : Option ResourceId

pub record TaskMetadata : Type 0 where
  pub id : ResourceId
  pub title : Option String
  pub status : Option String
  pub description : Option String
