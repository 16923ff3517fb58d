-- ===== src/Events/Platform.antt =====
-- What the event models take from Python and pydantic: floating point numbers (`float`), points in
-- time (`datetime`) and `str.strip`, which pydantic applies under `str_strip_whitespace=True`.
use vfobs.Prelude.{String, ◌≡◌}

pub record Platform : Type 1 where
  pub Float : Type 0
  -- `0.0` and `+`
  pub float_zero : Float
  pub float_add : Float → Float → Float
  pub Datetime : Type 0
  pub strip : String → String

-- Documented: stripping removes the white space at the ends of a text and nothing else, so a second
-- time it changes nothing, and the two defaults, which have none, stay as they are.
pub record StripLaws (P : Platform) : Type 0 where
  pub strip_idem : (s : String) → P.strip (P.strip s) ≡ P.strip s
  pub strip_org : P.strip "viloforge" ≡ "viloforge"
  pub strip_cluster : P.strip "vafi-dev" ≡ "vafi-dev"
