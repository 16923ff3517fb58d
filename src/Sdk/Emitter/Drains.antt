-- ===== src/Sdk/Emitter/Drains.antt =====
-- The end of an `HttpEmitter`: what the drain task does after `aclose` has set `_closed`.
use mathlib.Core.List.{append_assoc, append-nil}
use vfobs.Prelude.{ℕ, ◌+◌, ◌≤◌, ◌<◌, ◌≡◌, refl, sym, arith, Bool, true, List, [], ◌∷◌, ◌++◌, length}
use vfobs.Sdk.Emitter.{
  Drain, unstarted, cancelled, looping, waiting, posting, ended, HttpEmitter, Input, scheduled,
  answered, closing, step, after, emitted_in, turn, post_ends, run_loop, run_wait, take_next,
}
use vfobs.Sdk.Emitter.Order.{after-emitted_in}

-- The drain task exists, and has neither returned nor been cancelled.
abbrev pub IsRunning : Drain → Type 0
IsRunning looping = Unit
IsRunning waiting = Unit
IsRunning posting = Unit
IsRunning _ = ⊥

module _ {A : Type 0} where
  -- The task has returned, and has posted these events.
  pub record IsDone (s : HttpEmitter A) (events : List A) : Type 0 where
    pub returned : s.drain ≡ ended
    pub emptied : s.queue ≡ []
    pub posted : s.posts ≡ events

module _ {A : Type 0} (queue_max : ℕ) where
  -- Turns of the drain task with the answer to a post behind each; a turn may find a time-out.
  unfoldable pub rounds : List Bool → HttpEmitter A → HttpEmitter A
  unfolding step
  rounds [] s = s
  rounds (timed_out ∷ rest) s =
      rounds rest (step queue_max answered (step queue_max (scheduled timed_out) s))

  ended-rounds :
      (p : List A) (wake : Bool) (l : List Bool)
      → IsDone
          (rounds l (record { queue = []; wake = wake; closed = true; drain = ended; posts = p }))
          p
  unfolding rounds turn post_ends
  ended-rounds p wake [] = record { returned = refl; emptied = refl; posted = refl }
  ended-rounds p wake (t ∷ l) = ended-rounds p wake l

  looping-rounds :
      (q p : List A) (wake : Bool) (l : List Bool)
      → length q < length l
      → IsDone
          (rounds l (record { queue = q; wake = wake; closed = true; drain = looping; posts = p }))
          (p ++ q)
  unfolding rounds turn post_ends run_loop take_next
  looping-rounds q p wake [] h = absurd (omega arith)
  looping-rounds [] p wake (t ∷ l) h = rw (append-nil p) (ended-rounds p wake l)
  looping-rounds (x ∷ q) p wake (t ∷ l) h =
      rw (sym (append_assoc p (x ∷ []) q)) (looping-rounds q (p ++ x ∷ []) wake l (omega arith))

  running-rounds :
      (d : Drain) (q p : List A) (l : List Bool)
      → IsRunning d
      → length q + 1 < length l
      → IsDone
          (rounds l (record { queue = q; wake = true; closed = true; drain = d; posts = p }))
          (p ++ q)
  unfolding rounds turn post_ends run_wait take_next
  running-rounds unstarted q p l r h = absurd r
  running-rounds ended q p l r h = absurd r
  running-rounds cancelled q p l r h = absurd r
  running-rounds d q p [] r h = absurd (omega arith)
  running-rounds looping q p (t ∷ l) r h = looping-rounds q p true (t ∷ l) (omega arith)
  running-rounds posting q p (t ∷ l) r h = looping-rounds q p true l (omega arith)
  running-rounds waiting [] p (t ∷ l) r h = looping-rounds [] p true l (omega arith)
  running-rounds waiting (x ∷ q) p (t ∷ l) r h =
      rw (sym (append_assoc p (x ∷ []) q)) (looping-rounds q (p ++ x ∷ []) true l (omega arith))

  -- Once `aclose` has closed an emitter whose drain task runs, and does not give up meanwhile, the
  -- task returns: it does so within as many rounds as events are queued and two more, whichever turns
  -- find a time-out, having posted every queued event in order behind those posted before.
  pub rounds-closing :
      (history : List (Input A)) (l : List Bool)
      → IsRunning (after queue_max history).drain
      → length (after queue_max history).queue + 1 < length l
      → IsDone
          (rounds l (after queue_max (closing ∷ history)))
          ((after queue_max history).posts ++ (after queue_max history).queue)
  unfolding after step
  rounds-closing history l r h =
      let s = after queue_max history in running-rounds s.drain s.queue s.posts l r h

  -- Where no more than `queue_max` events have been emitted, all of them have then been posted, in the
  -- order of their emission.
  pub rounds-emitted_in :
      (history : List (Input A)) (l : List Bool)
      → IsRunning (after queue_max history).drain
      → length (after queue_max history).queue + 1 < length l
      → length (emitted_in history) ≤ queue_max
      → IsDone (rounds l (after queue_max (closing ∷ history))) (emitted_in history)
  rounds-emitted_in history l r h fits =
      rw⁻¹ (after-emitted_in queue_max history fits) (rounds-closing history l r h)
