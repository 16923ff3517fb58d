-- ===== src/Api/Health.antt =====
-- The probes of src/vfobs/api/health.py.
use vfobs.Prelude.{ℕ, String, Option, none, some, List, [], ◌∷◌}

-- `healthz`
unfoldable pub healthz : List (String × String)
healthz = ("status", "ok") ∷ []

-- `readyz`: the status and the content, where the query `SELECT 1` has raised an exception of this
-- class, or none.
unfoldable pub readyz : Option String → ℕ × List (String × String)
readyz (some exc) = (503, ("status", "not_ready") ∷ ("db", exc) ∷ [])
readyz none = (200, ("status", "ok") ∷ ("db", "ok") ∷ [])
