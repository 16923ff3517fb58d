-- ===== src/Middleware.antt =====
-- `RequestLoggingMiddleware` of src/vfobs/middleware/logging.py with the metrics of
-- src/vfobs/observability/metrics_registry.py.
pub mod Counted
pub mod Ingested
use vfobs.Prelude.{
  ℕ, ◌+◌, String, str_eq, ◌≡◌, refl, Bool, true, false, ◌&&◌, ◌==◌, Option, none, some, List, [],
  ◌∷◌, ◌++◌, if◌then◌else◌,
}
use vfobs.Prelude.Int.{ℤ}
use vfobs.Prelude.Result.{Result, ok, raise, Exception}

-- The labels of `REQUESTS`; those of `DURATION` are the first two.
pub record Labels : Type 0 where
  pub method : String
  pub path : String
  pub status : ℕ

abbrev pub same_route : String → String → String → String → Bool
same_route method path method' path' = str_eq method method' && str_eq path path'

abbrev pub same_labels : Labels → Labels → Bool
same_labels a b = same_route a.method a.path b.method b.path && a.status == b.status

-- What the middleware takes from prometheus_client and from Python: the registry's counters and
-- histograms, of which the number of observations is read, and the clock `time.perf_counter`.
pub record Metrics : Type 1 where
  pub Registry : Type 0
  pub Seconds : Type 0
  pub inc : Labels → Registry → Registry
  pub observe : String → String → Seconds → Registry → Registry
  pub counted : Labels → Registry → ℕ
  pub observed : String → String → Registry → ℕ
  pub elapsed : Seconds → Seconds → Seconds
  -- `int(duration * 1000)`
  pub millis : Seconds → ℤ

-- Documented: `inc` adds one to the counter of these labels and `observe` one observation to the
-- histogram of these, and neither changes another.
pub record MetricsLaws (M : Metrics) : Type 0 where
  pub counted-inc :
      (a b : Labels) (r : M.Registry)
      → M.counted b (M.inc a r) ≡ (if same_labels a b then 1 else 0) + M.counted b r
  pub counted-observe :
      (m p : String) (d : M.Seconds) (b : Labels) (r : M.Registry)
      → M.counted b (M.observe m p d r) ≡ M.counted b r
  pub observed-inc :
      (a : Labels) (m p : String) (r : M.Registry) → M.observed m p (M.inc a r) ≡ M.observed m p r
  pub observed-observe :
      (m p m' p' : String) (d : M.Seconds) (r : M.Registry)
      → M.observed m' p' (M.observe m p d r)
        ≡ (if same_route m p m' p' then 1 else 0) + M.observed m' p' r

-- A line of the log, with its `extra`.
pub record Line : Type 0 where
  pub method : String
  pub path : String
  pub status : ℕ
  pub duration_ms : ℤ
  pub request_id : String

module _ (M : Metrics) where
  -- What the middleware leaves behind: the registry, the log, and the request id of the context.
  pub record Telemetry : Type 0 where
    pub registry : M.Registry
    pub lines : List Line
    pub request_id : String

  -- A request as the middleware meets it: its new id, the clock's readings around the call, and what
  -- `call_next` comes to, a response with a status or an exception.
  pub record Exchange : Type 0 where
    pub method : String
    pub path : String
    pub rid : String
    pub before : M.Seconds
    pub later : M.Seconds
    pub answer : Result Exception ℕ

  -- After the call.
  unfoldable pub note : Exchange → Result Exception ℕ → Telemetry → Telemetry
  note x (raise e) t = t
  note x (ok status) t =
      let duration = M.elapsed x.later x.before in
      record t {
        registry =
            M.observe x.method x.path duration
              (M.inc (record { method = x.method; path = x.path; status = status }) t.registry);
        lines =
            t.lines
            ++ record {
              method = x.method;
              path = x.path;
              status = status;
              duration_ms = M.millis duration;
              request_id = x.rid;
            }
              ∷ [];
      }

  -- `dispatch`
  unfoldable pub dispatch : Exchange → Telemetry → Result Exception ℕ × Telemetry
  unfolding note
  dispatch x t = (x.answer, note x x.answer (record t { request_id = x.rid }))

  -- One request after the other.
  unfoldable pub dispatch_all : List Exchange → Telemetry → Telemetry
  unfolding dispatch
  dispatch_all [] t = t
  dispatch_all (x ∷ rest) t = dispatch_all rest (dispatch x t).1
