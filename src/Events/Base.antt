-- ===== src/Events/Base.antt =====
-- The envelope of every event: `Event` of src/vfobs/events/base.py. The model's `payload` is the
-- field `data` of the source, and `type` is computed from the class of the payload, which fixes it.
use mathlib.Core.Path.{subst}
use vfobs.Prelude.{
  String, str_eq, ◌≡◌, ◌≢◌, Option, some, none, refl, ap, sym, ◌∙◌, false, arith, eq_iff, get_or,
  if◌then◌else◌,
}
use mathlib.Core.Option
use vfobs.Prelude.Int.{ℤ, pos}
use vfobs.Prelude.Result.{Result, ok, raise, Exception, validation_error}
use vfobs.Events.Platform.{Platform, StripLaws}
use vfobs.Events.Classes.{type_value}
use vfobs.Events.Namespaces.{Payload, class_of}

pub data Classification : Type 0 where
  public internal secret : Classification

pub record Event (P : Platform) : Type 0 where
  pub v : ℤ
  pub workgraph_id : String
  pub task_id : Option String
  pub agent_id : Option String
  pub trace_id : Option String
  pub source : String
  pub timestamp : P.Datetime
  pub classification : Classification
  pub org_id : String
  pub cluster_id : String
  pub payload : Payload P

unfoldable pub event_type : {P : Platform} → Event P → String
unfolding class_of type_value
event_type e = type_value (class_of e.payload)

-- The keyword arguments of an event's constructor; None where a defaulted one is not given.
pub record Kwargs (P : Platform) : Type 0 where
  pub v : Option ℤ
  pub workgraph_id : String
  pub task_id : Option String
  pub agent_id : Option String
  pub trace_id : Option String
  pub source : String
  pub timestamp : P.Datetime
  pub classification : Option Classification
  pub org_id : Option String
  pub cluster_id : Option String
  pub payload : Payload P

-- The fields of a new event: texts are stripped, and defaults are put in.
unfoldable pub fields_of : (P : Platform) → Kwargs P → Event P
fields_of P k = record {
  v = get_or k.v (pos 1);
  workgraph_id = P.strip k.workgraph_id;
  task_id = Option.map P.strip k.task_id;
  agent_id = Option.map P.strip k.agent_id;
  trace_id = Option.map P.strip k.trace_id;
  source = P.strip k.source;
  timestamp = k.timestamp;
  classification = get_or k.classification internal;
  org_id = get_or (Option.map P.strip k.org_id) "viloforge";
  cluster_id = get_or (Option.map P.strip k.cluster_id) "vafi-dev";
  payload = k.payload;
}

-- The constructor: `min_length=1` is tested on the stripped texts.
unfoldable pub new_event : (P : Platform) → Kwargs P → Result Exception (Event P)
unfolding fields_of
new_event P k =
    if str_eq (P.strip k.workgraph_id) ""
    then raise validation_error
    else if str_eq (P.strip k.source) ""
    then raise validation_error
    else ok (fields_of P k)

-- What validation establishes of an event.
pub record IsValid {P : Platform} (e : Event P) : Type 0 where
  pub workgraph_id-ne : e.workgraph_id ≢ ""
  pub source-ne : e.source ≢ ""

-- An event as keyword arguments, all of them given.
abbrev pub kwargs_of : {P : Platform} → Event P → Kwargs P
kwargs_of e = record {
  v = some e.v;
  workgraph_id = e.workgraph_id;
  task_id = e.task_id;
  agent_id = e.agent_id;
  trace_id = e.trace_id;
  source = e.source;
  timestamp = e.timestamp;
  classification = some e.classification;
  org_id = some e.org_id;
  cluster_id = some e.cluster_id;
  payload = e.payload;
}

module _ (P : Platform) (laws : StripLaws P) where
  strip_opt : (o : Option String) → Option.map P.strip (Option.map P.strip o) ≡ Option.map P.strip o
  strip_opt none = refl
  strip_opt (some s) = rw (laws.strip_idem s)

  strip_default :
      (o : Option String) (d : String)
      → P.strip d ≡ d
      → P.strip (get_or (Option.map P.strip o) d) ≡ get_or (Option.map P.strip o) d
  strip_default none d h = h
  strip_default (some s) d h = laws.strip_idem s

  fields_of-kwargs_of : (k : Kwargs P) → fields_of P (kwargs_of (fields_of P k)) ≡ fields_of P k
  unfolding fields_of
  fields_of-kwargs_of k = rw (
    laws.strip_idem k.workgraph_id,
    laws.strip_idem k.source,
    strip_opt k.task_id,
    strip_opt k.agent_id,
    strip_opt k.trace_id,
    strip_default k.org_id "viloforge" laws.strip_org,
    strip_default k.cluster_id "vafi-dev" laws.strip_cluster,
  )

  new_event-cases :
      (k : Kwargs P) (e : Event P)
      → new_event P k ≡ ok e
      → (str_eq (P.strip k.workgraph_id) "" ≡ false)
        × (str_eq (P.strip k.source) "" ≡ false)
        × (fields_of P k ≡ e)
  unfolding new_event
  new_event-cases k e h = (ground (arith, h), ground (arith, h), ground (arith, h))

  -- The data are taken over.
  pub new_event-payload :
      (k : Kwargs P) (e : Event P) → new_event P k ≡ ok e → e.payload ≡ k.payload
  unfolding fields_of
  new_event-payload k e h =
      let (_, _, same) = new_event-cases k e h in sym (ap (λ e. e.payload) same)

  new_event-ok :
      (k : Kwargs P)
      → str_eq (P.strip k.workgraph_id) "" ≡ false
      → str_eq (P.strip k.source) "" ≡ false
      → new_event P k ≡ ok (fields_of P k)
  unfolding new_event
  new_event-ok k f g = rw (f, g)

  new_event-fields_of :
      (k : Kwargs P)
      → str_eq (P.strip k.workgraph_id) "" ≡ false
      → str_eq (P.strip k.source) "" ≡ false
      → IsValid (fields_of P k) × (new_event P (kwargs_of (fields_of P k)) ≡ ok (fields_of P k))
  unfolding fields_of
  new_event-fields_of k f g = (
    record {
      workgraph_id-ne = λ e. ground (arith, f, eq_iff (P.strip k.workgraph_id) "", e);
      source-ne = λ e. ground (arith, g, eq_iff (P.strip k.source) "", e);
    },
    new_event-ok (kwargs_of (fields_of P k)) (rw (laws.strip_idem k.workgraph_id) f)
          (rw (laws.strip_idem k.source) g)
        ∙ ap ok (fields_of-kwargs_of k),
  )

  -- An event that was constructed has a workgraph id and a source that are not empty, and the
  -- constructor gives the same event back from the event's own fields.
  pub new_event-IsValid :
      (k : Kwargs P) (e : Event P)
      → new_event P k ≡ ok e
      → IsValid e × (new_event P (kwargs_of e) ≡ ok e)
  new_event-IsValid k e h =
      let (f, g, same) = new_event-cases k e h in
      subst (λ e. IsValid e × (new_event P (kwargs_of e) ≡ ok e)) same (new_event-fields_of k f g)
