-- ===== src/Api/Body/RoundTrip.antt =====
-- The JSON of an event is read as that event.
use vfobs.Prelude.{◌≡◌, refl, String, Bool, true, Option, none, some, List, [], ◌∷◌}
use vfobs.Prelude.Int.{ℤ}
use vfobs.Prelude.Result.{ok, bind-bind, ◌>>=◌}
use vfobs.Events.Platform.{Platform}
use vfobs.Events.Classes.{EventClass, type_value, registry-type_value}
use vfobs.Events.Namespaces.{
  Payload, class_of, ExecutionSummary, execution_summary_of, Decision, approved, changes_requested,
  rejected,
}
use vfobs.Events.Values.{classification_of-value}
use vfobs.Events.Factory.{decision_of}
use vfobs.Events.Base.{Event, event_type, kwargs_of, new_event}
use vfobs.Events.Json.{
  int, float, str, opt, texts, entries, summary, payload_json, event_json, event_members,
  decision_value,
}
use vfobs.Events.Fields.{
  Scalars, ScalarLaws, nullable, str_items, str_members, as_object, get_member, text_of, required,
  defaulted,
}
use vfobs.Api.Body.{union_get}
use vfobs.Api.Body.Payloads.{summary_field}
use vfobs.Api.Body.Data.{parse_data, parse_event, parse_kwargs, as_classification, data_members}

union_get-type_value : (k : EventClass) → union_get (type_value k) ≡ some k
unfolding union_get
union_get-type_value EventClass.anomaly_stuck_detected = refl
union_get-type_value _ = refl

decision_of-value : (d : Decision) → decision_of (decision_value d) ≡ some d
unfolding decision_of
decision_of-value approved = refl
decision_of-value changes_requested = refl
decision_of-value rejected = refl

module _ {P : Platform} (S : Scalars P) where
  abbrev pub is_finite_cost : Option P.Float → Bool
  is_finite_cost none = true
  is_finite_cost (some x) = S.is_finite x

  -- The cost of a summary, if it has one, is a number that JSON has.
  abbrev has_finite_cost : Option (ExecutionSummary P) → Bool
  has_finite_cost none = true
  has_finite_cost (some s) = is_finite_cost s.cost_usd

  unfoldable pub has_finite_data : Payload P → Bool
  has_finite_data p = has_finite_cost (execution_summary_of p)

  module _ (laws : ScalarLaws S) where
    nullable-int : (o : Option ℤ) → nullable S.as_int (some (opt int o)) ≡ ok o
    unfolding nullable
    nullable-int none = refl
    nullable-int (some i) = rw (laws.as_int-int i) refl

    nullable-str : (o : Option String) → nullable S.as_str (some (opt str o)) ≡ ok o
    unfolding nullable
    nullable-str none = refl
    nullable-str (some s) = rw (laws.as_str-str s) refl

    nullable-float :
        (o : Option P.Float)
        → is_finite_cost o ≡ true
        → nullable S.as_float (some (opt float o)) ≡ ok o
    unfolding nullable
    nullable-float none h = refl
    nullable-float (some x) h = rw (laws.as_float-float x h) refl

    str_items-texts : (l : List String) → str_items S.as_str (texts l) ≡ ok l
    unfolding str_items
    str_items-texts [] = refl
    str_items-texts (s ∷ l) = rw (laws.as_str-str s, str_items-texts l) refl

    str_members-entries : (l : List (String × String)) → str_members S.as_str (entries l) ≡ ok l
    unfolding str_members
    str_members-entries [] = refl
    str_members-entries ((k, s) ∷ l) = rw (laws.as_str-str s, str_members-entries l) refl

    summary_field-summary :
        (o : Option (ExecutionSummary P))
        → has_finite_cost o ≡ true
        → summary_field S (some (opt summary o)) ≡ ok o
    unfolding summary_field get_member
    summary_field-summary none h = refl
    summary_field-summary (some s) h =
        rw (nullable-int s.num_turns, nullable-int s.total_tokens, nullable-float s.cost_usd h) refl

    -- The data of an event come back from their JSON, read for the event's class.
    parse_data-payload_json :
        (p : Payload P)
        → has_finite_data p ≡ true
        → (as_object (payload_json p) >>= parse_data S (class_of p)) ≡ ok p
    unfolding parse_data get_member as_object class_of has_finite_data execution_summary_of
    parse_data-payload_json (Payload.judge_decision d) h =
        rw (decision_of-value d.decision, nullable-str d.notes) refl
    parse_data-payload_json (Payload.judge_review_submitted d) h =
        rw (str_members-entries d.per_ac_verdicts) refl
    parse_data-payload_json (Payload.task_state_changed d) h =
        rw
          (
            laws.as_str-str d.from_status,
            laws.as_str-str d.to_status,
            summary_field-summary d.execution_summary h,
          )
          refl
    parse_data-payload_json _ h = simp (
      laws.as_str-str, laws.as_int-int, laws.as_datetime-time, nullable-int, nullable-str,
      str_items-texts,
    )

    -- So do the fields of the class `Event`.
    parse_kwargs-event_members :
        (e : Event P) → parse_kwargs S e.payload (event_members e) ≡ ok (kwargs_of e)
    unfolding parse_kwargs get_member required defaulted as_classification event_members
    parse_kwargs-event_members e = simp (
      laws.as_str-str, laws.as_int-int, laws.as_datetime-time, nullable-str,
      classification_of-value,
    )

    -- The JSON of an event, whose numbers are finite, is read as that event, if its constructor gives
    -- it back from its own fields.
    pub parse_event-event_json :
        (e : Event P)
        → has_finite_data e.payload ≡ true
        → new_event P (kwargs_of e) ≡ ok e
        → parse_event S (event_json e) ≡ ok e
    unfolding parse_event get_member as_object text_of event_json event_members event_type
        data_members
    parse_event-event_json e finite stable =
        rw
          (
            union_get-type_value (class_of e.payload),
            (registry-type_value (class_of e.payload)).1,
            bind-bind (as_object (payload_json e.payload)) (parse_data S (class_of e.payload))
                (λ p. do kwargs ← parse_kwargs S p (event_members e); new_event P kwargs),
            parse_data-payload_json e.payload finite,
            parse_kwargs-event_members e,
          )
          stable
