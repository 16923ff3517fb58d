-- ===== src/Sdk/Emitter/Substitutes.antt =====
-- The other emitters of sdk/python/vfobs_sdk/emitter.py: `NullEmitter`, which drops events, and
-- `BufferingEmitter`, which keeps them.
use vfobs.Prelude.{◌≡◌, refl, ap, List, [], ◌∷◌, ◌++◌}
use vfobs.Sdk.Emitter.{Input, emitted, scheduled, answered, closing, gave_up, emitted_in}

-- `NullEmitter`, which has no state.
pub data NullEmitter : Type 0 where
  null_emitter : NullEmitter

-- `events` of `BufferingEmitter`.
pub record BufferingEmitter (A : Type 0) : Type 0 where
  pub events : List A

module _ {A : Type 0} where
  unfoldable pub null_emit : A → NullEmitter → NullEmitter
  null_emit event s = s

  unfoldable pub buffer_emit : A → BufferingEmitter A → BufferingEmitter A
  buffer_emit event s = record { events = s.events ++ event ∷ [] }

  -- A history of an emitter at a `BufferingEmitter`, the latest input first: only an emission counts.
  unfoldable pub buffered : List (Input A) → BufferingEmitter A
  unfolding buffer_emit
  buffered [] = record { events = [] }
  buffered (emitted running event ∷ older) = buffer_emit event (buffered older)
  buffered (_ ∷ older) = buffered older

  -- The buffer lists the events that were emitted, in the order of their emission.
  pub events-buffered : (history : List (Input A)) → (buffered history).events ≡ emitted_in history
  unfolding buffered
  events-buffered [] = refl
  events-buffered (emitted running event ∷ older) =
      ap (λ l. l ++ event ∷ []) (events-buffered older)
  events-buffered (scheduled timed_out ∷ older) = events-buffered older
  events-buffered (answered ∷ older) = events-buffered older
  events-buffered (closing ∷ older) = events-buffered older
  events-buffered (gave_up ∷ older) = events-buffered older
