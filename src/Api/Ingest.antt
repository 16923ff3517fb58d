-- ===== src/Api/Ingest.antt =====
-- `POST /events` as a request meets it: src/vfobs/api/events.py with `get_principal` of
-- src/vfobs/api/auth.py, which FastAPI calls before it validates the body, which it
-- has read as JSON.
use vfobs.Prelude.{ℕ, ◌≡◌, ◌≢◌, ◌⊎◌, inl, inr, refl, String, true, Option, some, [], ◌∷◌, ◌++◌}
use vfobs.Prelude.Result.{Result, ok, raise, Exception, type_error, validation_error, Result-cases}
use vfobs.Events.Platform.{Platform, StripLaws}
use vfobs.Events.Base.{Event, new_event, kwargs_of}
use vfobs.Events.Json.{Json, event_json}
use vfobs.Repository.Interface.{EventRepository, View, Contract}
use vfobs.Api.Auth.{
  Hmac, HmacLaws, is_ascii, verify, verify_lem, verify-controller, missing_token, invalid_token,
}
use vfobs.Events.Fields.{Scalars, ScalarLaws}
use vfobs.Api.Body.Data.{parse_event}
use vfobs.Api.Body.RoundTrip.{has_finite_data, parse_event-event_json}
use vfobs.Api.Body.Accepted.{IsAccepted, parse_event-IsAccepted}
use vfobs.Api.Body.Refused.{parse_event-Invalid}
use vfobs.Api.Events.{post_events, post_events_lem}

-- `get_principal`, of the credentials that `HTTPBearer` finds in the request.
unfoldable pub get_principal : Hmac → String → Option String → Result Exception String
get_principal h expected creds = verify h expected creds

module _ {P : Platform} (R : EventRepository P) where
  -- The endpoint behind its dependency and its body; a validation error is answered with 422.
  unfoldable pub answer_post :
      R.State → Result Exception String → Result Exception (Event P) → Result Exception ℕ × R.State
  answer_post s (raise e) body = (raise e, s)
  answer_post s (ok principal) (raise e) = (raise e, s)
  answer_post s (ok principal) (ok event) = post_events R s principal event

  unfoldable pub ingest :
      Hmac → Scalars P → String → R.State → Option String → Json P → Result Exception ℕ × R.State
  unfolding answer_post
  ingest h S expected s creds body =
      answer_post s (get_principal h expected creds) (parse_event S body)

module _ {P : Platform} {R : EventRepository P} {V : View R} (C : Contract R V) where
  -- The log has grown by this one event, under the id of the answer.
  pub record IsStored (s : R.State) (e : Event P) (answer : Result Exception ℕ × R.State)
      : Type 0 where
    pub eid : ℕ
    pub answered : answer.0 ≡ ok eid
    pub log_grown : V.log answer.1 ≡ V.log s ++ (eid, e) ∷ []
    pub still_valid : V.Valid answer.1

  answer_post-IsStored :
      (s : R.State) (principal : String) (e : Event P)
      → V.Valid s
      → IsStored s e (answer_post R s (ok principal) (ok e))
  unfolding answer_post
  answer_post-IsStored s principal e v =
      let (eid, answered, grown, valid, _, _) = post_events_lem C s principal e v in
      record { eid = eid; answered = answered; log_grown = grown; still_valid = valid }

  module _ (h : Hmac) (hmac : HmacLaws h) (S : Scalars P) (strips : StripLaws P) (expected : String)
      (ascii : is_ascii expected ≡ true) where
    -- The reason of a refusal: the token, or, of a request with the configured token, its body.
    abbrev pub Refusal : Option String → Json P → Exception → Type 0
    Refusal creds body e =
        ((e ≡ missing_token) ⊎ (e ≡ invalid_token) ⊎ (e ≡ type_error))
        ⊎ ((creds ≡ some expected) × (e ≡ validation_error) × (parse_event S body ≡ raise e))

    not_let_in :
        (creds : Option String) (e : Exception)
        → verify h expected creds ≡ raise e
        → (e ≡ missing_token) ⊎ (e ≡ invalid_token) ⊎ (e ≡ type_error)
    not_let_in creds e refused = elim ((verify_lem h hmac expected creds ascii).1 e refused) [
      | inl m ↦ inl m
      | inr (inl i) ↦ inr (inl i)
      | inr (inr (t, _, _, _)) ↦ inr (inr t)
    ]

    let_in_with :
        (creds : Option String) (principal : String)
        → verify h expected creds ≡ ok principal
        → creds ≡ some expected
    let_in_with creds principal v =
        ((verify_lem h hmac expected creds ascii).0.0
          (verify-controller h expected creds principal v)).0

    -- Whatever a request sends: either it is refused, for its token with HTTP 401 or a TypeError, or
    -- with the configured token for a body that is no event, and then the repository is as it was; or
    -- it sends the configured token and a body whose members are read, each under its own name, as the
    -- fields of a valid event, and the log grows by exactly that event, under the id of the answer.
    pub ingest-cases :
        (s : R.State) (creds : Option String) (body : Json P)
        → V.Valid s
        → ((e : Exception) × (ingest R h S expected s creds body ≡ (raise e, s))
            × Refusal creds body e)
          ⊎ ((e : Event P) × (creds ≡ some expected)
              × (parse_event S body ≡ ok e)
              × IsAccepted S body e
              × IsStored s e (ingest R h S expected s creds body))
    unfolding ingest get_principal answer_post
    ingest-cases s creds body v = elim (Result-cases (verify h expected creds)) [
      | inr (e, refused) ↦ inl (e, rw refused refl, inl (not_let_in creds e refused))
      | inl (principal, let_in) ↦ elim (Result-cases (parse_event S body)) [
        | inr (e, refused) ↦ inl (
          e,
          rw (let_in, refused) refl,
          inr (
            let_in_with creds principal let_in,
            rw refused at (parse_event-Invalid S body),
            refused,
          ),
        )
        | inl (e, is_read) ↦ inr (
          e,
          let_in_with creds principal let_in,
          is_read,
          parse_event-IsAccepted S strips body e is_read,
          rw (let_in, is_read) (answer_post-IsStored s principal e v),
        )
      ]
    ]

    -- A request with the configured token, which is not empty, and the JSON of an event with finite
    -- numbers, which its constructor gives back, is answered with an id, and the log grows by that
    -- event.
    pub ingest-event_json :
        (laws : ScalarLaws S) (s : R.State) (e : Event P)
        → V.Valid s
        → expected ≢ ""
        → has_finite_data S e.payload ≡ true
        → new_event P (kwargs_of e) ≡ ok e
        → IsStored s e (ingest R h S expected s (some expected) (event_json e))
    unfolding ingest get_principal
    ingest-event_json laws s e v ne finite stable =
        let let_in = (verify_lem h hmac expected (some expected) ascii).0.1 (refl, ne) in
        rw (let_in, parse_event-event_json S laws e finite stable)
          (answer_post-IsStored s "controller" e v)
