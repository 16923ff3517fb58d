-- ===== src/Sdk/Watch/Unseen.antt =====
-- The watcher on what the server sends: whether a terminal status can be seen at all.
use vfobs.Prelude.{String, ◌≡◌, refl, ◌∙◌, false, Option, none, List, [], ◌∷◌, map, arith}
use vfobs.Prelude.Result.{ok}
use vfobs.Events.Platform.{Platform}
use vfobs.Events.Namespaces.{Payload}
use vfobs.Repository.Model.{StoredEvent}
use vfobs.Sdk.ReadClient.{StoredEventView, view}
use vfobs.Sdk.ReadClient.Complete.{Wire, body_of}
use vfobs.Sdk.Watch.State.{Clock, WatchState, is_terminal, from_events}
use vfobs.Sdk.Watch.History.{reaches_terminal, from_events_lem}
use vfobs.Sdk.Watch.Latest.{OrderLaws}

module _ {P : Platform} {Data : Type 0} (w : Wire P Data) (empty : Data)
    (to_status : Data → Option String) where
  -- The views that the client makes of the stored events.
  abbrev pub views : List (StoredEvent P) → List (StoredEventView Data)
  views events = map (λ e. view empty (body_of w e)) events

  reaches_terminal-views :
      (K : Clock) (events : List (StoredEvent P))
      → ((d : Payload P) → w.dump d ≡ none)
      → to_status empty ≡ none
      → reaches_terminal K to_status (views events) ≡ false
  unfolding view is_terminal
  reaches_terminal-views K [] drops e = refl
  reaches_terminal-views K (x ∷ events) drops e =
      ground (arith, drops x.event.payload, e, reaches_terminal-views K events drops e)

  -- If the dump of a stored event has no `data`, and the empty object no status, then the watcher
  -- never takes a task for terminal, whatever events are stored.
  pub terminal_unseen :
      (K : Clock) (laws : OrderLaws K) (events : List (StoredEvent P)) (now : K.Datetime)
      (timeout : K.Seconds) (s : WatchState K)
      → ((d : Payload P) → w.dump d ≡ none)
      → to_status empty ≡ none
      → from_events K to_status (views events) now timeout ≡ ok s
      → s.terminal ≡ false
  terminal_unseen K laws events now timeout s drops e h =
      (from_events_lem K laws to_status (views events) now timeout s h).3
      ∙ reaches_terminal-views K events drops e
