-- ===== src/Delivery/ReadBack.antt =====
-- What the SDK's reader gets of what the SDK's emitter sent.
use vfobs.Prelude.{
  ℕ, arith, ◌+◌, ◌≤◌, ◌<◌, ◌≡◌, ◌≢◌, ◌∙◌, refl, sym, ap, String, Bool, true, Option, none, some,
  List, [], ◌∷◌, map, length, select, opt_eq, length-map, Bool-cases, inl, inr,
}
use vfobs.Prelude.Int.{ℤ}
use vfobs.Prelude.Result.{ok}
use vfobs.Events.Platform.{Platform, StripLaws}
use vfobs.Events.Base.{Event, event_type}
use vfobs.Events.Json.{str, opt, event_json, event_members}
use vfobs.Events.Fields.{Scalars, ScalarLaws}
use vfobs.Repository.Interface.{EventRepository, View, Contract}
use vfobs.Repository.Log.{of_task, hits, visible, stored}
use vfobs.Api.Auth.{Hmac, HmacLaws, is_ascii}
use vfobs.Sdk.Events.Wire.{sdk_json}
use vfobs.Sdk.Emitter.{Input, closing, after, emitted_in}
use vfobs.Sdk.Emitter.Drains.{IsRunning, rounds}
use vfobs.Sdk.ReadClient.{StoredEventView, view, task_events}
use vfobs.Sdk.ReadClient.Complete.{Wire, body_of, served, task_events_complete}
use vfobs.Delivery.{SdkEvent, post_body, deliver}
use vfobs.Delivery.Logged.{stored_json, rounds-IsLogged}

opt_str-injective : {P : Platform} (a b : Option String) → opt {P = P} str a ≡ opt str b → a ≡ b
opt_str-injective none none e = refl
opt_str-injective none (some b) e = absurd (cc e)
opt_str-injective (some a) none e = absurd (cc e)
opt_str-injective (some a) (some b) e = cc e

-- What a reader can see of an event, but for its id and its data.
abbrev shown : {P : Platform} → (P.Datetime → String) → Event P → String × String
shown iso e = (event_type e, iso e.timestamp)

module _ {P : Platform} (S : Scalars P) where
  -- The fields of an event in the JSON of a post.
  module _ (e : Event P) (d : SdkEvent S) (same : event_json e ≡ post_body S d) where
    task_same : e.task_id ≡ d.event.task_id
    unfolding event_json event_members post_body sdk_json
    task_same = opt_str-injective {P = P} e.task_id d.event.task_id (cc same)

    type_same : event_type e ≡ d.event.type_
    unfolding event_json event_members post_body sdk_json
    type_same = cc same

    time_same : e.timestamp ≡ d.event.timestamp
    unfolding event_json event_members post_body sdk_json
    time_same = cc same

  abbrev pub sent : (P.Datetime → String) → SdkEvent S → String × String
  sent iso d = (d.event.type_, iso d.event.timestamp)

  abbrev for_task : String → SdkEvent S → Bool
  for_task t d = opt_eq d.event.task_id t

  shown-sent :
      (iso : P.Datetime → String) (t : String) (items : List (ℕ × Event P))
      (posts : List (SdkEvent S))
      → map (λ x. event_json x.1) items ≡ map (post_body S) posts
      → map (λ x. shown iso x.1) (select (visible (of_task t) none) items)
        ≡ map (sent iso) (select (for_task t) posts)
  shown-sent iso t [] [] h = refl
  shown-sent iso t [] (d ∷ posts) h = absurd (cc h)
  shown-sent iso t (x ∷ items) [] h = absurd (cc h)
  shown-sent iso t ((i, e) ∷ items) (d ∷ posts) h =
      let same : event_json e ≡ post_body S d = cc h in
      let rest = shown-sent iso t items posts (cc h) in
      let head : shown iso e ≡ sent iso d = cc (type_same e d same, time_same e d same) in
      let pick : opt_eq e.task_id t ≡ opt_eq d.event.task_id t =
        ap (λ o. opt_eq o t) (task_same e d same) in
      elim (Bool-cases (opt_eq d.event.task_id t)) [
        | inl y ↦ rw (pick, y) (cc (head, rest))
        | inr n ↦ rw (pick, n) rest
      ]

-- What a view shows but for its id and its data.
abbrev pub seen : {Data : Type 0} → StoredEventView Data → String × String
seen b = (b.type_, b.timestamp)

module _ {P : Platform} where
  length-hits-le :
      (p : Event P → Bool) (items : List (ℕ × Event P)) → length (hits p none items) ≤ length items
  length-hits-le p [] = omega arith
  length-hits-le p (x ∷ items) = elim (Bool-cases (visible p none x)) [
    | inl y ↦ rw y (omega (arith, length-hits-le p items))
    | inr n ↦ rw n (omega (arith, length-hits-le p items))
  ]

  seen-shown :
      {Data : Type 0} (w : Wire P Data) (empty : Data) (l : List (ℕ × Event P))
      → map seen (map (λ e. view empty (body_of w e)) (map stored l)) ≡ map (λ x. shown w.iso x.1) l
  unfolding view
  seen-shown w empty [] = refl
  seen-shown w empty (x ∷ l) = rw (seen-shown w empty l)

module _ {P : Platform} {R : EventRepository P} {V : View R} (C : Contract R V) (h : Hmac)
    (hmac : HmacLaws h) (S : Scalars P) (laws : ScalarLaws S) (strips : StripLaws P)
    (expected : String) (ascii : is_ascii expected ≡ true) (ne : expected ≢ "") where
  module _ (queue_max : ℕ) (history : List (Input (SdkEvent S))) (s : R.State) (v : V.Valid s)
      (new : V.log s ≡ []) {Data : Type 0} (w : Wire P Data) (empty : Data) where
    -- A new server with an emitter as in `rounds-IsLogged`: a reader of the SDK that asks for a task
    -- afterwards gets, in the order of their emission, as many events as were emitted for that task,
    -- with their types and times, for any page limit and within one round more than there are events.
    pub read_back :
        (turns : List Bool) (task_id : String) (page_limit : ℤ) (fuel : ℕ)
        → IsRunning (after queue_max history).drain
        → length (after queue_max history).queue + 1 < length turns
        → length (emitted_in history) ≤ queue_max
        → length (emitted_in history) < fuel
        → (views : List (StoredEventView Data)) × (task_events empty fuel
              (served w R
                (deliver S R h
                  (post_body S)
                  expected
                  (some expected)
                  s
                  (rounds queue_max turns (after queue_max (closing ∷ history))).posts)
                task_id)
              page_limit
            ≡ some (ok views))
          × (map seen views ≡ map (sent S w.iso) (select (for_task S task_id) (emitted_in history)))
    read_back turns task_id page_limit fuel running enough fits fuelled =
        let logged =
          rounds-IsLogged C h hmac S laws strips expected ascii ne queue_max history s v turns
            running enough fits in
        let s' =
          deliver S R h (post_body S) expected (some expected) s
            (rounds queue_max turns (after queue_max (closing ∷ history))).posts in
        let log : V.log s' ≡ logged.items = logged.log_grown ∙ rw new in
        (
          map (λ e. view empty (body_of w e)) (hits (of_task task_id) none (V.log s')),
          task_events_complete w empty C s' logged.still_valid fuel task_id page_limit (
              omega (
                arith,
                fuelled,
                length-hits-le (of_task task_id) (V.log s'),
                ap length log,
                sym (length-map (stored_json C h hmac S laws strips expected) logged.items)
                    ∙ ap length logged.same
                    ∙ length-map (post_body S) (emitted_in history),
              )),
          seen-shown w empty (select (visible (of_task task_id) none) (V.log s'))
              ∙ ap (λ l. map (λ x. shown w.iso x.1) (select (visible (of_task task_id) none) l)) log
              ∙ shown-sent S w.iso task_id logged.items (emitted_in history) logged.same,
        )
