-- ===== src/Delivery/Accepted.antt =====
-- What the SDK posts is read by the server as the event that its own factory makes.
use vfobs.Prelude.{◌≡◌, refl, sym, true, none, some, Bool-cases, inl, inr}
use mathlib.Core.Path.{subst}
use vfobs.Prelude.Result.{Always, Always-ok, ok, raise, Result-cases, Result, ◌>>=◌, Exception}
use vfobs.Events.Platform.{Platform, StripLaws}
use vfobs.Events.Namespaces.{execution_summary_of}
use vfobs.Events.Base.{Event, new_event, kwargs_of}
use vfobs.Events.Json.{event_json}
use vfobs.Events.Factory.Calls.{Call, Common, make}
use vfobs.Events.Factory.Called.{payload_called}
use vfobs.Events.Factory.Made.{is_refused, IsMade, make-IsMade, make-refused}
use vfobs.Events.Fields.{Scalars}
use vfobs.Api.Body.RoundTrip.{has_finite_data}
use vfobs.Sdk.Events.Wire.{SdkCall, SdkCommon, server_call, server_common, task_state_changed}
use vfobs.Sdk.Events.SameWire.{sdk_make-make}
use vfobs.Delivery.{SdkEvent, is_finite_call, post_body}

module _ {P : Platform} (S : Scalars P) where
  -- The server's event of a post: its JSON is what is posted, its numbers are finite, and its
  -- constructor gives it back.
  pub record IsServed (d : SdkEvent S) (e : Event P) : Type 0 where
    pub same : event_json e ≡ post_body S d
    pub finite : has_finite_data S e.payload ≡ true
    pub stable : new_event P (kwargs_of e) ≡ ok e

  -- An event that the factory makes is as `IsMade` says.
  module _ (laws : StripLaws P) where
    called-IsMade :
        (now : P.Datetime) (call : Call P) (c : Common P) (e : Event P)
        → make P now call c ≡ ok e
        → IsMade now call c e
    called-IsMade now call c e h = elim (Bool-cases (is_refused call c)) [
      | inl r ↦ absurd (cc (make-refused laws now call c r, h))
      | inr r ↦
          let (e', made, is_made) = make-IsMade laws now call c r in
          subst (IsMade now call c) (cc (made, h)) is_made
    ]

    called-finite :
        (now : P.Datetime) (call : SdkCall P) (c : SdkCommon P)
        → is_finite_call S call ≡ true
        → Always
            (λ p. has_finite_data S p ≡ true)
            (payload_called now (server_call c c.timestamp call))
    unfolding payload_called has_finite_data execution_summary_of is_finite_call
    called-finite now (task_state_changed from_status to_status none) c f = refl
    called-finite now (task_state_changed from_status to_status (some s)) c f = f
    called-finite now _ c f = refl

    same_wire :
        (d : SdkEvent S) (r : Result Exception (Event P))
        → make P d.now (server_call d.common d.common.timestamp d.call) (server_common d.common) ≡ r
        → (r >>= λ e. ok (event_json e)) ≡ ok (post_body S d)
    unfolding post_body
    same_wire d r h =
        sym (rw⁻¹ h (rw (d.made) at (sdk_make-make d.now d.call d.common d.common.timestamp refl)))

    -- Every event that the SDK makes is posted as the JSON of such an event of the server.
    pub served : (d : SdkEvent S) → (e : Event P) × IsServed d e
    served d =
        elim (Result-cases (
          make P d.now (server_call d.common d.common.timestamp d.call) (server_common d.common))) [
            | inl (e, made) ↦
                let m =
                  called-IsMade d.now (server_call d.common d.common.timestamp d.call)
                    (server_common d.common) e made in
                (
                  e,
                  record {
                    same = cc (same_wire d (ok e) made);
                    finite =
                        Always-ok (λ p. has_finite_data S p ≡ true)
                          (payload_called d.now (server_call d.common d.common.timestamp d.call))
                          e.payload m.carried (called-finite d.now d.call d.common d.finite);
                    stable = m.stable;
                  },
                )
            | inr (x, refused) ↦ absurd (cc (same_wire d (raise x) refused))
          ]
