-- ===== src/Sdk/ReadClient/Complete.antt =====
-- `ReadClient.task_events` against the endpoint `get_task_events` of the server: the client gets
-- every event of the task, once, in the order of the ids.
use mathlib.Core.List.{append_assoc, append-nil, map-append, map-map}
use vfobs.Prelude.{
  ℕ, zero, suc, ◌<◌, ◌≡◌, ap, sym, ◌∙◌, String, Option, none, some, List, [], ◌++◌, arith, map,
  length, Option-cases, inl, inr, length-append,
}
use vfobs.Prelude.Int.{ℤ}
use vfobs.Prelude.Result.{ok}
use vfobs.Events.Platform.{Platform}
use vfobs.Events.Base.{event_type}
use vfobs.Events.Namespaces.{Payload}
use vfobs.Repository.Model.{StoredEvent}
use vfobs.Repository.Log.{of_task, hits}
use vfobs.Repository.Interface.{EventRepository, View, Contract}
use vfobs.Api.Reads.{get_task_events}
use vfobs.Api.Dto.{TaskEventsResponse}
use vfobs.Api.Reads.Paging.{remaining, get_task_events_page, get_task_events_progress}
use vfobs.Sdk.ReadClient.{StoredEventView, EventBody, Fetch, view, task_events_loop, task_events}

-- How the server writes a stored event as JSON, which pydantic does: the text of a time, and the
-- object under `data`, None where the dump of the field `event: Event` has no `data`.
pub record Wire (P : Platform) (Data : Type 0) : Type 0 where
  pub iso : P.Datetime → String
  pub dump : Payload P → Option Data

module _ {P : Platform} {Data : Type 0} (w : Wire P Data) where
  abbrev pub body_of : StoredEvent P → EventBody Data
  body_of e = record {
    id = e.id;
    type_ = event_type e.event;
    timestamp = w.iso e.event.timestamp;
    payload = w.dump e.event.payload;
  }

  -- The server's answer, with the repository in the state `s`.
  abbrev pub served : (R : EventRepository P) → R.State → String → Fetch Data
  served R s task_id from_id limit =
      let response = get_task_events R s task_id from_id limit in
      ok (record { events = map body_of response.events; next_from_id = response.next_from_id })

  module _ (empty : Data) {R : EventRepository P} {V : View R} (C : Contract R V) (s : R.State)
      (v : V.Valid s) where
    -- From any cursor on, with a round for each event that is left and one more.
    loop_complete :
        (fuel : ℕ) (task_id : String) (limit : ℤ) (from_id : Option ℤ)
        (out : List (StoredEventView Data))
        → length (hits (of_task task_id) from_id (V.log s)) < fuel
        → task_events_loop empty fuel (served R s task_id) limit from_id out
          ≡ some (
              ok (
                out
                ++ map (λ e. view empty (body_of e)) (hits (of_task task_id) from_id (V.log s))))
    unfolding task_events_loop
    loop_complete zero task_id limit from_id out h = elim h [ ]
    loop_complete (suc fuel) task_id limit from_id out h =
        elim (Option-cases response.next_from_id) [
          | inl e ↦
              rw (e, task_events_loop, shown)
                (ap (λ t. some (ok (out ++ map seen t))) (sym (split e ∙ append-nil page)))
          | inr (c, e) ↦
              rw (e, task_events_loop, shown)
                (loop_complete fuel task_id limit (some c) (out ++ map seen page) (fewer c e)
                  ∙ ap (λ t. some (ok t))
                      (append_assoc out (map seen page)
                          (map seen (hits (of_task task_id) (some c) (V.log s)))
                        ∙ ap (λ t. out ++ t)
                            (sym (
                              ap (map seen) (split e)
                              ∙ map-append seen page (hits (of_task task_id) (some c) (V.log s))))))
        ]
      where
        response : TaskEventsResponse P
        response = get_task_events R s task_id from_id limit

        page : List (StoredEvent P)
        page = response.events

        seen : StoredEvent P → StoredEventView Data
        seen e = view empty (body_of e)

        shown : map (view empty) (map body_of page) ≡ map seen page
        shown = map-map (view empty) body_of page

        split :
            {o : Option ℤ}
            → response.next_from_id ≡ o
            → hits (of_task task_id) from_id (V.log s)
              ≡ page ++ remaining (of_task task_id) (V.log s) o
        split e =
            (get_task_events_page C s task_id from_id limit v).0
            ∙ ap (λ o. page ++ remaining (of_task task_id) (V.log s) o) e

        fewer :
            (c : ℤ)
            → response.next_from_id ≡ some c
            → length (hits (of_task task_id) (some c) (V.log s)) < fuel
        fewer c e = omega (
          arith,
          ap length (split e),
          length-append page (hits (of_task task_id) (some c) (V.log s)),
          get_task_events_progress C s task_id from_id limit c e,
        )

    -- With the server's repository in a valid state, and whatever page limit the client asks for,
    -- `task_events` ends, raises nothing, and returns all events of the task in the order of their
    -- ids, each once. A round for each event and one more are enough.
    pub task_events_complete :
        (fuel : ℕ) (task_id : String) (page_limit : ℤ)
        → length (hits (of_task task_id) none (V.log s)) < fuel
        → task_events empty fuel (served R s task_id) page_limit
          ≡ some (ok (map (λ e. view empty (body_of e)) (hits (of_task task_id) none (V.log s))))
    unfolding task_events
    task_events_complete fuel task_id page_limit h = loop_complete fuel task_id page_limit none [] h
