-- ===== src/Events/Factory/Made.antt =====
-- The events that `EventFactory` makes, and the calls that it refuses.
use mathlib.Core.Option
use vfobs.Prelude.{
  ◌≡◌, refl, ap, ◌∙◌, String, str_eq, Bool, true, false, ◌||◌, Option, some, get_or, arith,
  Bool-cases, inl, inr,
}
use vfobs.Prelude.Result.{ok, raise, validation_error, ◌>>=◌}
use vfobs.Events.Platform.{Platform, StripLaws}
use vfobs.Events.Classes.{registry_get, registry-type_value}
use vfobs.Events.Namespaces.{Payload, class_of}
use vfobs.Events.Base.{
  Event, event_type, fields_of, new_event, kwargs_of, IsValid, new_event-IsValid,
}
use vfobs.Events.Factory.{BaseKwargs, kwargs_with, create}
use vfobs.Events.Factory.Calls.{Call, Common, make, class_called, misjudges}
use vfobs.Events.Factory.Called.{
  task_called, payload_called, payload_called-class_of, payload_called-refused, make_lem,
}

module _ {P : Platform} where
  -- A call whose texts are blank where they must not be, or which misjudges.
  abbrev pub is_refused : Call P → Common P → Bool
  is_refused call c =
      misjudges call || (str_eq (P.strip c.workgraph_id) "" || str_eq (P.strip c.source) "")

  -- The event of a call: it has the method's class and the data of the call, and its texts are those
  -- of the call, stripped; it passes validation, the registry finds its class, and its own fields
  -- give it again.
  pub record IsMade (now : P.Datetime) (call : Call P) (c : Common P) (e : Event P) : Type 0 where
    pub class : class_of e.payload ≡ class_called call
    pub registered : registry_get (event_type e) ≡ some (class_called call)
    pub carried : payload_called now call ≡ ok e.payload
    pub task : e.task_id ≡ Option.map P.strip (task_called call)
    pub workgraph : e.workgraph_id ≡ P.strip c.workgraph_id
    pub sender : e.source ≡ P.strip c.source
    pub time : e.timestamp ≡ get_or c.timestamp now
    pub valid : IsValid e
    pub stable : new_event P (kwargs_of e) ≡ ok e

  module _ (laws : StripLaws P) (now : P.Datetime) where
    create-fields_of :
        (w : String) (t : Option String) (s : String) (timestamp : Option P.Datetime)
        (p : Payload P) (base : BaseKwargs)
        → (str_eq (P.strip w) "" || str_eq (P.strip s) "") ≡ false
        → create P now w t s timestamp p base
          ≡ ok (fields_of P (kwargs_with P now w t s timestamp p base))
    unfolding create new_event
    create-fields_of w t s timestamp p base h = ground (arith, h)

    create-refused :
        (w : String) (t : Option String) (s : String) (timestamp : Option P.Datetime)
        (p : Payload P) (base : BaseKwargs)
        → (str_eq (P.strip w) "" || str_eq (P.strip s) "") ≡ true
        → create P now w t s timestamp p base ≡ raise validation_error
    unfolding create new_event
    create-refused w t s timestamp p base h = ground (arith, h)

    pub make-IsMade :
        (call : Call P) (c : Common P)
        → is_refused call c ≡ false
        → (e : Event P) × (make P now call c ≡ ok e) × IsMade now call c e
    unfolding event_type
    make-IsMade call c h =
        let (p, carried, class) = payload_called-class_of now call (ground (arith, h)) in
        let k = kwargs_with P now c.workgraph_id (task_called call) c.source c.timestamp p c.base in
        let made =
          create-fields_of c.workgraph_id (task_called call) c.source c.timestamp p c.base
            (ground (arith, h)) in
        let (valid, stable) = new_event-IsValid P laws k (fields_of P k) (unfold create in made) in
        (
          fields_of P k,
          make_lem now call c
              ∙ ap
                  (λ r. r >>= λ p.
                    create P now c.workgraph_id (task_called call) c.source c.timestamp p c.base)
                  carried
              ∙ made,
          unfold fields_of in
              (record {
                class = class;
                registered = (registry-type_value (class_of p)).0 ∙ ap some class;
                carried = carried;
                task = refl;
                workgraph = refl;
                sender = refl;
                time = refl;
                valid = valid;
                stable = stable;
              }),
        )

    -- A call that is refused raises a validation error and makes nothing.
    pub make-refused :
        (call : Call P) (c : Common P)
        → is_refused call c ≡ true
        → make P now call c ≡ raise validation_error
    make-refused call c h = make_lem now call c ∙ elim (Bool-cases (misjudges call)) [
      | inl e ↦
          ap
            (λ r. r >>= λ p.
              create P now c.workgraph_id (task_called call) c.source c.timestamp p c.base)
            (payload_called-refused now call e)
      | inr e ↦
          let (p, made, class) = payload_called-class_of now call e in
          ap
            (λ r. r >>= λ p.
              create P now c.workgraph_id (task_called call) c.source c.timestamp p c.base)
            made
          ∙ create-refused c.workgraph_id (task_called call) c.source c.timestamp p c.base
              (ground (arith, h, e))
    ]
