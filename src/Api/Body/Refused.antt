-- ===== src/Api/Body/Refused.antt =====
-- A body that is not an event is refused with a validation error, and with no other exception.
use vfobs.Prelude.{refl, String, Option, none, some}
use vfobs.Prelude.Result.{
  Result, Exception, validation_error, OnlyRaises, OnlyRaises-bind, OnlyRaises-some_or,
  OnlyRaises-if,
}
use vfobs.Events.Platform.{Platform}
use vfobs.Events.Classes.{EventClass, type_has_known_namespace}
use vfobs.Events.Namespaces.{Payload}
use vfobs.Events.Base.{Kwargs, new_event}
use vfobs.Events.Json.{Json, null, str, object, array, Items, Members, done, member}
use vfobs.Events.Fields.{
  Scalars, text_of, as_object, required, defaulted, nullable, str_items, str_list, str_members,
  str_dict,
}
use vfobs.Api.Body.Payloads.{summary_field, summary_data, given_summary}
use vfobs.Api.Body.Data.{parse_data, parse_kwargs, data_members, parse_event}

abbrev Invalid : {A : Type 0} → Result Exception A → Type 0
Invalid r = OnlyRaises validation_error r

module _ {P : Platform} where
  text_of-Invalid : (o : Option (Json P)) → Invalid (text_of o)
  unfolding text_of
  text_of-Invalid (some (str s)) = tt
  text_of-Invalid _ = refl

  as_object-Invalid : (j : Json P) → Invalid (as_object j)
  unfolding as_object
  as_object-Invalid (object m) = tt
  as_object-Invalid _ = refl

  module _ {A : Type 0} (f : Json P → Option A) where
    required-Invalid : (o : Option (Json P)) → Invalid (required f o)
    unfolding required
    required-Invalid none = refl
    required-Invalid (some j) = OnlyRaises-some_or validation_error (f j)

    defaulted-Invalid : (o : Option (Json P)) → Invalid (defaulted f o)
    unfolding defaulted
    defaulted-Invalid none = tt
    defaulted-Invalid (some j) = search (OnlyRaises-bind, OnlyRaises-some_or)

    nullable-Invalid : (o : Option (Json P)) → Invalid (nullable f o)
    unfolding nullable
    nullable-Invalid (some null) = tt
    nullable-Invalid none = tt
    nullable-Invalid (some j) = defaulted-Invalid (some j)

  str_items-Invalid : (f : Json P → Option String) (l : Items P) → Invalid (str_items f l)
  unfolding str_items
  str_items-Invalid f Items.no_items = tt
  str_items-Invalid f (Items.item j l) =
      search (OnlyRaises-bind, OnlyRaises-some_or, str_items-Invalid f l)

  str_list-Invalid : (f : Json P → Option String) (o : Option (Json P)) → Invalid (str_list f o)
  unfolding str_list
  str_list-Invalid f (some (array l)) = str_items-Invalid f l
  str_list-Invalid f _ = refl

  str_members-Invalid : (f : Json P → Option String) (m : Members P) → Invalid (str_members f m)
  unfolding str_members
  str_members-Invalid f done = tt
  str_members-Invalid f (member k j m) =
      search (OnlyRaises-bind, OnlyRaises-some_or, str_members-Invalid f m)

  str_dict-Invalid : (f : Json P → Option String) (o : Option (Json P)) → Invalid (str_dict f o)
  unfolding str_dict
  str_dict-Invalid f (some (object m)) = str_members-Invalid f m
  str_dict-Invalid f _ = refl

  new_event-Invalid : (k : Kwargs P) → Invalid (new_event P k)
  unfolding new_event
  new_event-Invalid k = search (OnlyRaises-if, refl)

known-Invalid : (t : String) → Invalid (type_has_known_namespace t)
unfolding type_has_known_namespace
known-Invalid t = search (OnlyRaises-if, refl)

ruleset readers = (
  OnlyRaises-bind, OnlyRaises-some_or, text_of-Invalid, as_object-Invalid, required-Invalid,
  defaulted-Invalid, nullable-Invalid, str_list-Invalid, str_dict-Invalid, new_event-Invalid,
  known-Invalid,
)

module _ {P : Platform} (S : Scalars P) where
  summary_data-Invalid : (m : Members P) → Invalid (summary_data S m)
  unfolding summary_data
  summary_data-Invalid m = search readers

  summary_field-Invalid : (o : Option (Json P)) → Invalid (summary_field S o)
  unfolding summary_field given_summary
  summary_field-Invalid none = tt
  summary_field-Invalid (some null) = tt
  summary_field-Invalid (some j) = search (readers, summary_data-Invalid)

  parse_data-Invalid : (k : EventClass) (m : Members P) → Invalid (parse_data S k m)
  unfolding parse_data
  parse_data-Invalid EventClass.gate_failed m = search readers depth 9
  parse_data-Invalid _ m = search (readers, summary_field-Invalid) depth 9

  data_members-Invalid : (o : Option (Json P)) → Invalid (data_members S o)
  unfolding data_members
  data_members-Invalid none = refl
  data_members-Invalid (some j) = as_object-Invalid j

  parse_kwargs-Invalid : (p : Payload P) (m : Members P) → Invalid (parse_kwargs S p m)
  unfolding parse_kwargs
  parse_kwargs-Invalid p m = search readers depth 14

  pub parse_event-Invalid : (body : Json P) → Invalid (parse_event S body)
  unfolding parse_event
  parse_event-Invalid body =
      search (readers, data_members-Invalid, parse_data-Invalid, parse_kwargs-Invalid) depth 10
