-- ===== src/Middleware/Counted.antt =====
-- What the counters and the log of the middleware tell of the requests.
use mathlib.Core.List.{append_assoc, append-nil}
use vfobs.Prelude.{ℕ, ◌+◌, String, ◌≡◌, ◌∙◌, refl, sym, List, [], ◌∷◌, ◌++◌, if◌then◌else◌, arith}
use vfobs.Prelude.Result.{Result, ok, raise, Exception}
use vfobs.Middleware.{
  Labels, same_labels, same_route, Metrics, MetricsLaws, Line, Telemetry, Exchange, note, dispatch,
  dispatch_all,
}

module _ (M : Metrics) where
  unfoldable pub hit : Labels → Exchange M → Result Exception ℕ → ℕ
  hit b x (raise e) = 0
  hit b x (ok status) =
      if same_labels (record { method = x.method; path = x.path; status = status }) b then 1 else 0

  -- How many of the requests were answered with these labels.
  unfoldable pub answered_as : Labels → List (Exchange M) → ℕ
  unfolding hit
  answered_as b [] = 0
  answered_as b (x ∷ rest) = hit b x x.answer + answered_as b rest

  pass : String → String → Exchange M → Result Exception ℕ → ℕ
  pass m p x (raise e) = 0
  pass m p x (ok status) = if same_route x.method x.path m p then 1 else 0

  -- How many of the requests for this route were answered.
  unfoldable pub answered_at : String → String → List (Exchange M) → ℕ
  unfolding pass
  answered_at m p [] = 0
  answered_at m p (x ∷ rest) = pass m p x x.answer + answered_at m p rest

  line_of : Exchange M → Result Exception ℕ → List Line
  line_of x (raise e) = []
  line_of x (ok status) =
      record {
        method = x.method;
        path = x.path;
        status = status;
        duration_ms = M.millis (M.elapsed x.later x.before);
        request_id = x.rid;
      }
      ∷ []

  -- A line for each request that was answered, with the request's own id, in order.
  unfoldable pub lines_for : List (Exchange M) → List Line
  unfolding line_of
  lines_for [] = []
  lines_for (x ∷ rest) = line_of x x.answer ++ lines_for rest

  -- The registry and the log, before and after these requests.
  pub record IsCounted (xs : List (Exchange M)) (t t' : Telemetry M) : Type 0 where
    pub requests :
        (b : Labels) → M.counted b t'.registry ≡ answered_as b xs + M.counted b t.registry
    pub durations :
        (m p : String) → M.observed m p t'.registry ≡ answered_at m p xs + M.observed m p t.registry
    pub logged : t'.lines ≡ t.lines ++ lines_for xs

  module _ (laws : MetricsLaws M) where
    pub note-counted :
        (x : Exchange M) (r : Result Exception ℕ) (t : Telemetry M) (b : Labels)
        → M.counted b (note M x r t).registry ≡ hit b x r + M.counted b t.registry
    unfolding note hit
    note-counted x (raise e) t b = omega arith
    note-counted x (ok status) t b =
        let a : Labels = record { method = x.method; path = x.path; status = status } in
        laws.counted-observe x.method x.path (M.elapsed x.later x.before) b (M.inc a t.registry)
        ∙ laws.counted-inc a b t.registry

    note-observed :
        (x : Exchange M) (r : Result Exception ℕ) (t : Telemetry M) (m p : String)
        → M.observed m p (note M x r t).registry ≡ pass m p x r + M.observed m p t.registry
    unfolding note pass
    note-observed x (raise e) t m p = omega arith
    note-observed x (ok status) t m p =
        let a : Labels = record { method = x.method; path = x.path; status = status } in
        rw (laws.observed-inc a m p t.registry) at (
          laws.observed-observe x.method x.path m p (M.elapsed x.later x.before)
            (M.inc a t.registry))

    note-lines :
        (x : Exchange M) (r : Result Exception ℕ) (t : Telemetry M)
        → (note M x r t).lines ≡ t.lines ++ line_of x r
    unfolding note line_of
    note-lines x (raise e) t = sym (append-nil t.lines)
    note-lines x (ok status) t = refl

    -- After any requests, answered or ended by an exception: each request counter has grown by the
    -- number of the requests that were answered with its method, path and status, each histogram by
    -- the number of those answered with its method and path, and the log by a line for each that was
    -- answered, in their order and with the request's own id. A request that ends by an exception
    -- leaves no trace in them.
    pub dispatch_all-IsCounted :
        (xs : List (Exchange M)) (t : Telemetry M) → IsCounted xs t (dispatch_all M xs t)
    unfolding dispatch_all dispatch answered_as answered_at lines_for
    dispatch_all-IsCounted [] t = record {
      requests = λ b. omega arith;
      durations = λ m p. omega arith;
      logged = sym (append-nil t.lines);
    }
    dispatch_all-IsCounted (x ∷ rest) t =
        let t' = record t { request_id = x.rid } in
        let later = dispatch_all-IsCounted rest (note M x x.answer t') in
        record {
          requests = λ b. omega (arith, later.requests b, note-counted x x.answer t' b);
          durations = λ m p. omega (arith, later.durations m p, note-observed x x.answer t' m p);
          logged =
              later.logged
              ∙ rw (note-lines x x.answer t')
                  (append_assoc t.lines (line_of x x.answer) (lines_for rest));
        }
