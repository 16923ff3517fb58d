-- ===== src/Delivery/Logged.antt =====
-- What the server's log holds of an emitter's history.
use mathlib.Core.List.{append_assoc, append-nil, Sublist, sublist-append_left}
use mathlib.Core.List.Sublist
use mathlib.Core.Path.{subst}
use vfobs.Prelude.{
  ℕ, ◌+◌, ◌≤◌, ◌<◌, ◌≡◌, ◌≢◌, ◌∙◌, refl, sym, String, Bool, true, false, some, List, [], ◌∷◌, ◌++◌,
  map, length,
}
use vfobs.Events.Platform.{Platform, StripLaws}
use vfobs.Events.Base.{Event}
use vfobs.Events.Json.{Json, event_json}
use vfobs.Repository.Interface.{EventRepository, View, Contract}
use vfobs.Api.Auth.{Hmac, HmacLaws, is_ascii}
use vfobs.Events.Fields.{Scalars, ScalarLaws}
use vfobs.Api.Ingest.{ingest, IsStored, ingest-event_json}
use vfobs.Sdk.Emitter.{Input, closing, after, emitted_in}
use vfobs.Sdk.Emitter.Order.{after-Sublist}
use vfobs.Sdk.Emitter.Drains.{IsRunning, rounds, rounds-emitted_in}
use vfobs.Delivery.{SdkEvent, post_body, deliver, arrived}
use vfobs.Delivery.Accepted.{served}

arrived-Sublist :
    {A : Type 0} (flags : List Bool) (posts : List A) → Sublist (arrived flags posts) posts
unfolding arrived
arrived-Sublist [] [] = Sublist.refl []
arrived-Sublist (flag ∷ flags) [] = Sublist.refl []
arrived-Sublist [] (d ∷ posts) = Sublist.cons d (arrived-Sublist [] posts)
arrived-Sublist (true ∷ flags) (d ∷ posts) = Sublist.cons-cons d (arrived-Sublist flags posts)
arrived-Sublist (false ∷ flags) (d ∷ posts) = Sublist.cons d (arrived-Sublist flags posts)

module _ {P : Platform} {R : EventRepository P} {V : View R} (C : Contract R V) (h : Hmac)
    (hmac : HmacLaws h) (S : Scalars P) (laws : ScalarLaws S) (strips : StripLaws P)
    (expected : String) where
  abbrev pub stored_json : ℕ × Event P → Json P
  stored_json (i, e) = event_json e

  -- The log has grown by events whose JSON is what the posts said, in their order.
  pub record IsLogged (s : R.State) (posts : List (SdkEvent S)) (s' : R.State) : Type 0 where
    pub items : List (ℕ × Event P)
    pub log_grown : V.log s' ≡ V.log s ++ items
    pub same : map stored_json items ≡ map (post_body S) posts
    pub still_valid : V.Valid s'

  module _ (ascii : is_ascii expected ≡ true) (ne : expected ≢ "") where
    ingest-post_body :
        (s : R.State) (d : SdkEvent S)
        → V.Valid s
        → (e : Event P) × (event_json e ≡ post_body S d)
          × IsStored C s e (ingest R h S expected s (some expected) (post_body S d))
    ingest-post_body s d v =
        let (e, is_served) = served S strips d in
        (
          e,
          is_served.same,
          subst (λ j. IsStored C s e (ingest R h S expected s (some expected) j)) is_served.same
              (ingest-event_json C h hmac S strips expected ascii laws s e v ne is_served.finite
                is_served.stable),
        )

    deliver-IsLogged :
        (posts : List (SdkEvent S)) (s : R.State)
        → V.Valid s
        → IsLogged s posts (deliver S R h (post_body S) expected (some expected) s posts)
    unfolding deliver
    deliver-IsLogged [] s v = record {
      items = [];
      log_grown = sym (append-nil (V.log s));
      same = refl;
      still_valid = v;
    }
    deliver-IsLogged (d ∷ posts) s v =
        let (e, same, stored) = ingest-post_body s d v in
        let rest =
          deliver-IsLogged posts (ingest R h S expected s (some expected) (post_body S d)).1
            stored.still_valid in
        record {
          items = (stored.eid, e) ∷ rest.items;
          log_grown =
              rest.log_grown
              ∙ rw stored.log_grown (append_assoc (V.log s) ((stored.eid, e) ∷ []) rest.items);
          same = rw (same, rest.same) refl;
          still_valid = rest.still_valid;
        }

    module _ (queue_max : ℕ) (history : List (Input (SdkEvent S))) (s : R.State)
        (v : V.Valid s) where
      -- Whatever happens to an emitter with the server's token, and whichever of its posts reach the
      -- server: the server's log grows by events of the emitter, in the order of their emission, none
      -- of them more often than it was emitted, each with the JSON that the SDK gives it.
      pub arrived-IsLogged :
          (flags : List Bool)
          → (posts : List (SdkEvent S)) × Sublist posts (emitted_in history)
            × IsLogged s posts (
                deliver S R h
                  (post_body S)
                  expected
                  (some expected)
                  s
                  (arrived flags (after queue_max history).posts))
      arrived-IsLogged flags =
          let sent = (after queue_max history).posts in
          (
            arrived flags sent,
            Sublist.trans (arrived-Sublist flags sent) (
                Sublist.trans (sublist-append_left sent (after queue_max history).queue)
                  (after-Sublist queue_max history).0),
            deliver-IsLogged (arrived flags sent) s v,
          )

      -- An emitter with the server's token, whose drain task runs, that is closed and given as many
      -- turns as it has events queued and two more, and that no more than `queue_max` events were
      -- given: if every post reaches the server, the server's log grows by all the events that were
      -- emitted and by no others, in the order of their emission, each with the JSON that the SDK
      -- gives it.
      pub rounds-IsLogged :
          (turns : List Bool)
          → IsRunning (after queue_max history).drain
          → length (after queue_max history).queue + 1 < length turns
          → length (emitted_in history) ≤ queue_max
          → IsLogged s (emitted_in history) (
              deliver S R h
                (post_body S)
                expected
                (some expected)
                s
                (rounds queue_max turns (after queue_max (closing ∷ history))).posts)
      rounds-IsLogged turns running enough fits =
          let done = rounds-emitted_in queue_max history turns running enough fits in
          rw done.posted (deliver-IsLogged (emitted_in history) s v)
