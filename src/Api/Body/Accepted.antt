-- ===== src/Api/Body/Accepted.antt =====
-- What a body that is read as an event is.
use vfobs.Prelude.{
  eq_iff, str_eq, Bool-cases, inl, inr, List, [], ◌∷◌, map, some, none, ◌≡◌, ◌∙◌, refl, ap, sym,
  String, Option,
}
use mathlib.Core.Path.{subst}
use vfobs.Prelude.Result.{ok, some_or, validation_error, Always, Always-bind, Always-ok, Always-all}
use vfobs.Events.Platform.{Platform, StripLaws}
use vfobs.Events.Classes.{EventClass, type_value, lookup_in, type_has_known_namespace}
use vfobs.Events.Base.{
  Event, event_type, Kwargs, IsValid, new_event, kwargs_of, new_event-IsValid, new_event-payload,
}
use vfobs.Events.Namespaces.{Payload, class_of}
use vfobs.Events.Json.{Json, str, object, Members}
use vfobs.Events.Fields.{Scalars, text_of, get_member, as_object, required, defaulted, nullable}
use vfobs.Api.Body.{any_event, union_get}
use vfobs.Api.Body.Data.{parse_data, parse_kwargs, parse_event, data_members, as_classification}

abbrev HasClass : {P : Platform} → EventClass → Payload P → Type 0
HasClass k p = class_of p ≡ k

module _ {P : Platform} (S : Scalars P) where
  -- The data that are read for a class are of that class.
  parse_data-HasClass : (k : EventClass) (m : Members P) → Always (HasClass k) (parse_data S k m)
  unfolding parse_data class_of
  parse_data-HasClass EventClass.gate_failed m = search (Always-bind, refl)
  parse_data-HasClass _ m = search (Always-bind, refl)

lookup_in-type_value :
    (t : String) (ks : List EventClass)
    → Always
        (λ k. type_value k ≡ t)
        (some_or validation_error (lookup_in t (map (λ k. (type_value k, k)) ks)))
unfolding lookup_in
lookup_in-type_value t [] = tt
lookup_in-type_value t (k ∷ ks) = elim (Bool-cases (str_eq (type_value k) t)) [
  | inl e ↦ rw e ((eq_iff (type_value k) t).0 e)
  | inr e ↦ rw e (lookup_in-type_value t ks)
]

module _ {P : Platform} where
  -- The text of a tag is the JSON text itself.
  text_of-str : (o : Option (Json P)) → Always (λ s. o ≡ some (str s)) (text_of o)
  unfolding text_of
  text_of-str (some (str s)) = refl
  text_of-str _ = tt

module _ {P : Platform} (S : Scalars P) where
  -- The keyword arguments are what the members of the body are read as, each of its own name.
  pub record AreFields (m : Members P) (p : Payload P) (k : Kwargs P) : Type 0 where
    pub v : defaulted S.as_int (get_member "v" m) ≡ ok k.v
    pub workgraph_id : required S.as_str (get_member "workgraph_id" m) ≡ ok k.workgraph_id
    pub task_id : nullable S.as_str (get_member "task_id" m) ≡ ok k.task_id
    pub agent_id : nullable S.as_str (get_member "agent_id" m) ≡ ok k.agent_id
    pub trace_id : nullable S.as_str (get_member "trace_id" m) ≡ ok k.trace_id
    pub source : required S.as_str (get_member "source" m) ≡ ok k.source
    pub timestamp : required S.as_datetime (get_member "timestamp" m) ≡ ok k.timestamp
    pub classification :
        defaulted (as_classification S) (get_member "classification" m) ≡ ok k.classification
    pub org_id : defaulted S.as_str (get_member "org_id" m) ≡ ok k.org_id
    pub cluster_id : defaulted S.as_str (get_member "cluster_id" m) ≡ ok k.cluster_id
    pub carried : k.payload ≡ p

  parse_kwargs-AreFields :
      (p : Payload P) (m : Members P) → Always (AreFields m p) (parse_kwargs S p m)
  unfolding parse_kwargs
  parse_kwargs-AreFields p m =
      let Q = AreFields m p in
      Always-bind Q _ _ λ v e1. Always-bind Q _ _ λ workgraph_id e2. Always-bind Q _ _ λ task_id e3.
        Always-bind Q _ _ λ agent_id e4. Always-bind Q _ _ λ trace_id e5.
          Always-bind Q _ _ λ source e6. Always-bind Q _ _ λ timestamp e7.
            Always-bind Q _ _ λ classification e8. Always-bind Q _ _ λ org_id e9.
              Always-bind Q _ _ λ cluster_id e10.
                let k : Kwargs P = record {
                  v = v;
                  workgraph_id = workgraph_id;
                  task_id = task_id;
                  agent_id = agent_id;
                  trace_id = trace_id;
                  source = source;
                  timestamp = timestamp;
                  classification = classification;
                  org_id = org_id;
                  cluster_id = cluster_id;
                  payload = p;
                } in
                let are : AreFields m p k = record {
                  v = e1;
                  workgraph_id = e2;
                  task_id = e3;
                  agent_id = e4;
                  trace_id = e5;
                  source = e6;
                  timestamp = e7;
                  classification = e8;
                  org_id = e9;
                  cluster_id = e10;
                  carried = refl;
                } in
                are

  -- The event that a body is read as. The body is an object whose tag is the `type` of the event's
  -- class; its member `data` is an object that is read as the data of that class; its other members are
  -- read as keyword arguments, of which the constructor makes the event. The event's own fields give it
  -- again, and its workgraph id and source are not empty.
  pub record IsAccepted (body : Json P) (e : Event P) : Type 0 where
    pub members : Members P
    pub data_members : Members P
    pub kwargs : Kwargs P
    pub is_object : body ≡ object members
    pub tagged : get_member "type" members ≡ some (str (event_type e))
    pub has_data : get_member "data" members ≡ some (object data_members)
    pub data_read : parse_data S (class_of e.payload) data_members ≡ ok e.payload
    pub fields_read : AreFields members e.payload kwargs
    pub made : new_event P kwargs ≡ ok e
    pub valid : IsValid e
    pub stable : new_event P (kwargs_of e) ≡ ok e

  data_members-object : (o : Option (Json P)) → Always (λ d. o ≡ some (object d)) (data_members S o)
  unfolding data_members as_object
  data_members-object none = tt
  data_members-object (some (object d)) = refl
  data_members-object (some _) = tt

  module _ (laws : StripLaws P) where
    read-IsAccepted :
        (m : Members P) (tag : String) (k : EventClass) (data_ : Members P) (p : Payload P)
        (kwargs : Kwargs P)
        → text_of (get_member "type" m) ≡ ok tag
        → some_or validation_error (union_get tag) ≡ ok k
        → data_members S (get_member "data" m) ≡ ok data_
        → parse_data S k data_ ≡ ok p
        → parse_kwargs S p m ≡ ok kwargs
        → Always (IsAccepted (object m)) (new_event P kwargs)
    unfolding union_get event_type
    read-IsAccepted m tag k data_ p kwargs is_tag is_class is_object is_data is_kwargs =
        Always-all (IsAccepted (object m)) (new_event P kwargs) λ e made.
          let (valid, stable) = new_event-IsValid P laws kwargs e made in
          let tagged =
            Always-ok (λ s. get_member "type" m ≡ some (str s)) (text_of (get_member "type" m)) tag
              is_tag (text_of-str (get_member "type" m)) in
          let named =
            Always-ok (λ k. type_value k ≡ tag) (some_or validation_error (union_get tag)) k
              is_class (lookup_in-type_value tag any_event) in
          let class =
            Always-ok (HasClass k) (parse_data S k data_) p is_data
              (parse_data-HasClass S k data_) in
          let fields =
            Always-ok (AreFields m p) (parse_kwargs S p m) kwargs is_kwargs
              (parse_kwargs-AreFields p m) in
          let kept : e.payload ≡ p = new_event-payload P laws kwargs e made ∙ fields.carried in
          record {
            members = m;
            data_members = data_;
            kwargs = kwargs;
            is_object = refl;
            tagged = tagged ∙ cc (named, class, kept);
            has_data =
                Always-ok (λ d. get_member "data" m ≡ some (object d))
                  (data_members S (get_member "data" m)) data_ is_object
                  (data_members-object (get_member "data" m));
            data_read =
                ap (λ q. parse_data S (class_of q) data_) kept
                ∙ ap (λ j. parse_data S j data_) class
                ∙ is_data
                ∙ ap ok (sym kept);
            fields_read = subst (λ q. AreFields m q kwargs) (sym kept) fields;
            made = made;
            valid = valid;
            stable = stable;
          }

    read : (body : Json P) → Always (IsAccepted body) (parse_event S body)
    unfolding parse_event as_object
    read (object m) =
        let Q = IsAccepted (object m) in
        Always-bind Q _ _ λ tag is_tag. Always-bind Q _ _ λ k is_class.
          Always-bind Q (type_has_known_namespace tag) _ λ known _.
            Always-bind Q (data_members S (get_member "data" m)) _ λ data_ is_object.
              Always-bind Q _ _ λ p is_data. Always-bind Q _ _ λ kwargs is_kwargs.
                read-IsAccepted m tag k data_ p kwargs is_tag is_class is_object is_data is_kwargs
    read _ = tt

    -- Whatever JSON is posted: if it is read as an event, it is an object whose tag is the `type` of
    -- the event's class, whose data and other members are read as those of the event, and the event is
    -- valid and comes from its own fields again.
    pub parse_event-IsAccepted :
        (body : Json P) (e : Event P) → parse_event S body ≡ ok e → IsAccepted body e
    parse_event-IsAccepted body e h =
        Always-ok (IsAccepted body) (parse_event S body) e h (read body)
