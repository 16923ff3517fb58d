-- ===== src/Middleware/Ingested.antt =====
-- The counter of `POST /events` against the server's log: the middleware of
-- src/vfobs/middleware/logging.py around the endpoint of src/vfobs/api/events.py.
use vfobs.Prelude.{
  ℕ, ◌+◌, String, ◌≡◌, inl, inr, refl, ap, true, Option, List, [], ◌∷◌, length, length-append,
  arith,
}
use vfobs.Prelude.Result.{
  Result, ok, raise, Exception, http_exception, validation_error, type_error,
}
use vfobs.Events.Platform.{Platform, StripLaws}
use vfobs.Events.Json.{Json}
use vfobs.Repository.Interface.{EventRepository, View, Contract}
use vfobs.Api.Auth.{Hmac, HmacLaws, is_ascii}
use vfobs.Events.Fields.{Scalars}
use vfobs.Api.Ingest.{ingest, ingest-cases, Refusal}
use vfobs.Middleware.{Labels, Metrics, MetricsLaws, Telemetry, Exchange, dispatch}
use vfobs.Middleware.Counted.{hit, note-counted}

-- FastAPI's handlers of exceptions, which stand between the endpoint and the middleware: the status
-- of the response that they make, or the exception that they let through.
pub record Handlers : Type 0 where
  pub handled : Exception → Result Exception ℕ

-- Documented: an `HTTPException` is answered with its own status and a validation error of a request
-- with 422; an exception that is none of these is let through.
pub record HandlerLaws (H : Handlers) : Type 0 where
  pub http : (status : ℕ) (detail : String) → H.handled (http_exception status detail) ≡ ok status
  pub invalid : H.handled validation_error ≡ ok 422
  pub other : H.handled type_error ≡ raise type_error

abbrev pub created : Labels
created = record { method = "POST"; path = "/events"; status = 201 }

-- A post, with what the middleware meets of it.
pub record Post (P : Platform) (M : Metrics) : Type 0 where
  pub creds : Option String
  pub body : Json P
  pub rid : String
  pub before : M.Seconds
  pub later : M.Seconds

module _ {P : Platform} (R : EventRepository P) (h : Hmac) (S : Scalars P) (expected : String)
    (M : Metrics) (H : Handlers) where
  -- The status that the route declares, or the handlers' answer.
  unfoldable pub status_of : Result Exception ℕ → Result Exception ℕ
  status_of (ok eid) = ok 201
  status_of (raise e) = H.handled e

  abbrev exchange_of : Post P M → Result Exception ℕ → Exchange M
  exchange_of post result = record {
    method = "POST";
    path = "/events";
    rid = post.rid;
    before = post.before;
    later = post.later;
    answer = status_of result;
  }

  -- A request through the middleware to the endpoint.
  unfoldable pub serve_post : Post P M → R.State × Telemetry M → R.State × Telemetry M
  unfolding ingest dispatch
  serve_post post (s, t) =
      let (result, s') = ingest R h S expected s post.creds post.body in
      (s', (dispatch M (exchange_of post result) t).1)

  unfoldable pub serve_posts : List (Post P M) → R.State × Telemetry M → R.State × Telemetry M
  unfolding serve_post
  serve_posts [] served = served
  serve_posts (post ∷ posts) served = serve_posts posts (serve_post post served)

module _ {P : Platform} {R : EventRepository P} {V : View R} (C : Contract R V) (h : Hmac)
    (hmac : HmacLaws h) (S : Scalars P) (strips : StripLaws P) (expected : String)
    (ascii : is_ascii expected ≡ true) (M : Metrics) (metrics : MetricsLaws M) (H : Handlers)
    (handlers : HandlerLaws H) where
  -- A refusal is not counted as an event that was created.
  hit-refused :
      (post : Post P M) (e : Exception)
      → Refusal C h hmac S strips expected ascii post.creds post.body e
      → hit M created
          (exchange_of R h S expected M H post (raise e))
          (status_of R h S expected M H (raise e))
        ≡ 0
  unfolding hit status_of
  hit-refused post e (inl (inl m)) = rw (m, handlers.http 401 "Missing bearer token")
  hit-refused post e (inl (inr (inl i))) = rw (i, handlers.http 401 "Invalid bearer token")
  hit-refused post e (inl (inr (inr t))) = rw (t, handlers.other)
  hit-refused post e (inr (_, i, _)) = rw (i, handlers.invalid)

  hit-created :
      (post : Post P M) (result : Result Exception ℕ) (eid : ℕ)
      → result ≡ ok eid
      → hit M created
          (exchange_of R h S expected M H post result)
          (status_of R h S expected M H result)
        ≡ 1
  unfolding hit status_of
  hit-created post result eid e = rw e

  -- The counter and the log have grown by as much.
  abbrev pub Balance : R.State × Telemetry M → R.State × Telemetry M → Type 0
  Balance before later =
      (M.counted created later.1.registry + length (V.log before.0)
        ≡ M.counted created before.1.registry + length (V.log later.0))
      × V.Valid later.0

  serve_post-Balance :
      (post : Post P M) (s : R.State) (t : Telemetry M)
      → V.Valid s
      → Balance (s, t) (serve_post R h S expected M H post (s, t))
  unfolding serve_post dispatch
  serve_post-Balance post s t v =
      let t' = record t { request_id = post.rid } in
      elim (ingest-cases C h hmac S strips expected ascii s post.creds post.body v) [
        | inl (e, refused, why) ↦ rw refused (
          omega (
            arith,
            note-counted M metrics (exchange_of R h S expected M H post (raise e))
                (status_of R h S expected M H (raise e)) t' created,
            hit-refused post e why,
          ),
          v,
        )
        | inr (e, _, _, _, stored) ↦
            let result = (ingest R h S expected s post.creds post.body).0 in
            (
              omega (
                arith,
                note-counted M metrics (exchange_of R h S expected M H post result)
                    (status_of R h S expected M H result) t' created,
                hit-created post result stored.eid stored.answered,
                ap length stored.log_grown,
                length-append (V.log s) ((stored.eid, e) ∷ []),
              ),
              stored.still_valid,
            )
      ]

  -- After any posts, let in or not, events or not: the counter of `POST /events` answered with 201
  -- has grown by exactly as much as the log has, so that where both were empty it is the number of
  -- events in the log.
  pub serve_posts-Balance :
      (posts : List (Post P M)) (s : R.State) (t : Telemetry M)
      → V.Valid s
      → Balance (s, t) (serve_posts R h S expected M H posts (s, t))
  unfolding serve_posts
  serve_posts-Balance [] s t v = (refl, v)
  serve_posts-Balance (post ∷ posts) s t v =
      let served = serve_post R h S expected M H post (s, t) in
      let (grown, valid) = serve_post-Balance post s t v in
      let (more, still) = serve_posts-Balance posts served.0 served.1 valid in
      (omega (arith, grown, more), still)
