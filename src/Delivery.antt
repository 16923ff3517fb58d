-- ===== src/Delivery.antt =====
-- From the SDK's emitter to the server's log: `HttpEmitter._run` of sdk/python/vfobs_sdk/emitter.py
-- posts to `POST /events` of src/vfobs/api/events.py.
pub mod Accepted
pub mod Logged
pub mod ReadBack
use vfobs.Prelude.{◌≡◌, String, Bool, true, false, Option, none, some, List, [], ◌∷◌}
use vfobs.Prelude.Result.{ok}
use vfobs.Events.Platform.{Platform}
use vfobs.Events.Json.{Json}
use vfobs.Repository.Interface.{EventRepository}
use vfobs.Api.Auth.{Hmac}
use vfobs.Events.Fields.{Scalars}
use vfobs.Api.Body.RoundTrip.{is_finite_cost}
use vfobs.Api.Ingest.{ingest}
use vfobs.Sdk.Events as Sdk
use vfobs.Sdk.Events.Wire.{SdkCall, SdkCommon, sdk_make, sdk_json, task_state_changed}

module _ {P : Platform} (S : Scalars P) where
  -- The cost in the execution summary of a call is a number that JSON has.
  unfoldable pub is_finite_call : SdkCall P → Bool
  is_finite_call (task_state_changed from_status to_status (some s)) = is_finite_cost S s.cost_usd
  is_finite_call _ = true

  -- An event of the SDK with the call of the constructor that made it.
  pub record SdkEvent : Type 0 where
    pub event : Sdk.Event P
    pub now : P.Datetime
    pub call : SdkCall P
    pub common : SdkCommon P
    pub made : sdk_make P now call common ≡ ok event
    pub finite : is_finite_call call ≡ true

  -- The body of its post.
  unfoldable pub post_body : SdkEvent → Json P
  post_body d = sdk_json d.event

module _ {P : Platform} {A : Type 0} (S : Scalars P) (R : EventRepository P) (h : Hmac) where
  -- The posts of an emitter, answered one after the other by a server with the token `expected`.
  unfoldable pub deliver : (A → Json P) → String → Option String → R.State → List A → R.State
  unfolding ingest
  deliver body expected token s [] = s
  deliver body expected token s (d ∷ posts) =
      deliver body expected token (ingest R h S expected s token (body d)).1 posts

-- Of the posts those that reach the server, one flag for each; without a flag they do not.
unfoldable pub arrived : {A : Type 0} → List Bool → List A → List A
arrived [] posts = []
arrived (flag ∷ flags) [] = []
arrived (true ∷ flags) (d ∷ posts) = d ∷ arrived flags posts
arrived (false ∷ flags) (d ∷ posts) = arrived flags posts
