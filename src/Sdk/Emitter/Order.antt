-- ===== src/Sdk/Emitter/Order.antt =====
-- What reaches the HTTP client, and how much is kept, in any history of an `HttpEmitter`.
use mathlib.Core.List.{append_assoc, Sublist}
use mathlib.Core.List.Sublist
use vfobs.Prelude.{
  ℕ, ◌+◌, ◌≤◌, ◌≡◌, refl, ap, sym, ◌∙◌, arith, false, List, [], ◌∷◌, ◌++◌, length, length-append,
  inl, inr,
}
use vfobs.Sdk.Emitter.{
  unstarted, HttpEmitter, Input, emitted, scheduled, answered, closing, gave_up, push, step, after,
  emitted_in, emit,
}
use vfobs.Sdk.Emitter.Steps.{kept, step-kept, push-Sublist, length-push-le, push-cases}

module _ {A : Type 0} (queue_max : ℕ) where
  keep :
      (i : Input A) (older : List (Input A))
      → emitted_in (i ∷ []) ≡ []
      → Sublist (kept (after queue_max older)) (emitted_in older)
        × (length (after queue_max older).queue ≤ queue_max)
      → Sublist (kept (step queue_max i (after queue_max older))) (emitted_in older)
        × (length (step queue_max i (after queue_max older)).queue ≤ queue_max)
  keep i older none (order, bound) =
      let (same, le) = step-kept queue_max i (after queue_max older) none in
      (rw same order, omega (arith, le, bound))

  -- After any history of emissions, turns of the drain task, answers and closing: the events posted
  -- so far, followed by those still queued, are events that were emitted, in the order of their
  -- emission and none of them more often than it was emitted; and no more than `queue_max` are
  -- queued.
  pub after-Sublist :
      (history : List (Input A))
      → Sublist
          ((after queue_max history).posts ++ (after queue_max history).queue)
          (emitted_in history)
        × (length (after queue_max history).queue ≤ queue_max)
  unfolding after
  after-Sublist [] = (Sublist.refl [], omega arith)
  after-Sublist (emitted running event ∷ older) =
      let (order, bound) = after-Sublist older in
      unfold step emit in
      (
        push-Sublist queue_max (after queue_max older).posts (after queue_max older).queue
            (emitted_in older) event order,
        length-push-le queue_max (after queue_max older).queue event bound,
      )
  after-Sublist (scheduled timed_out ∷ older) =
      keep (scheduled timed_out) older refl (after-Sublist older)
  after-Sublist (answered ∷ older) = keep answered older refl (after-Sublist older)
  after-Sublist (closing ∷ older) = keep closing older refl (after-Sublist older)
  after-Sublist (gave_up ∷ older) = keep gave_up older refl (after-Sublist older)

  push-short : (q : List A) (e : A) → length q + 1 ≤ queue_max → push queue_max q e ≡ q ++ e ∷ []
  push-short q e h = elim (push-cases queue_max q e) [
    | inl (p, lt) ↦ absurd (omega arith)
    | inr (p, le) ↦ p
  ]

  -- As long as no more than `queue_max` events have been emitted, none is lost: those posted so far
  -- and those still queued are all events that were emitted, in the order of their emission.
  pub after-emitted_in :
      (history : List (Input A))
      → length (emitted_in history) ≤ queue_max
      → (after queue_max history).posts ++ (after queue_max history).queue ≡ emitted_in history
  unfolding after
  after-emitted_in [] h = refl
  after-emitted_in (emitted running event ∷ older) h =
      let fits = length-append (emitted_in older) (event ∷ []) in
      let same = after-emitted_in older (omega (arith, h, fits)) in
      let room : length (after queue_max older).queue + 1 ≤ queue_max = omega (
        arith,
        h,
        fits,
        ap length same,
        length-append (after queue_max older).posts (after queue_max older).queue,
      ) in
      unfold step emit in
      (ap (λ q. (after queue_max older).posts ++ q)
          (push-short (after queue_max older).queue event room)
        ∙ sym
            (append_assoc (after queue_max older).posts (after queue_max older).queue (event ∷ []))
        ∙ ap (λ l. l ++ event ∷ []) same)
  after-emitted_in (scheduled timed_out ∷ older) h =
      (step-kept queue_max (scheduled timed_out) (after queue_max older) refl).0
      ∙ after-emitted_in older h
  after-emitted_in (answered ∷ older) h =
      (step-kept queue_max answered (after queue_max older) refl).0 ∙ after-emitted_in older h
  after-emitted_in (closing ∷ older) h =
      (step-kept queue_max closing (after queue_max older) refl).0 ∙ after-emitted_in older h
  after-emitted_in (gave_up ∷ older) h =
      (step-kept queue_max gave_up (after queue_max older) refl).0 ∙ after-emitted_in older h

  -- Every emission of the history came without a running event loop.
  abbrev pub AllOutside : List (Input A) → Type 0
  AllOutside [] = Unit
  AllOutside (emitted running event ∷ older) = (running ≡ false) × AllOutside older
  AllOutside (_ ∷ older) = AllOutside older

  unstarted-step :
      (i : Input A) (s : HttpEmitter A)
      → AllOutside (i ∷ [])
      → s.drain ≡ unstarted
      → ((step queue_max i s).drain ≡ unstarted) × ((step queue_max i s).posts ≡ s.posts)
  unfolding step emit
  unstarted-step (emitted running event) s o u = (rw (o.0, u) refl, refl)
  unstarted-step (scheduled timed_out) s o u = (rw u refl, rw u refl)
  unstarted-step answered s o u = (rw u refl, rw u refl)
  unstarted-step closing s o u = (u, refl)
  unstarted-step gave_up s o u = (rw u refl, refl)

  outside :
      (i : Input A) (older : List (Input A))
      → AllOutside (i ∷ [])
      → ((after queue_max older).drain ≡ unstarted) × ((after queue_max older).posts ≡ [])
      → ((step queue_max i (after queue_max older)).drain ≡ unstarted)
        × ((step queue_max i (after queue_max older)).posts ≡ [])
  outside i older o (u, none) =
      let (still, same) = unstarted-step i (after queue_max older) o u in (still, same ∙ none)

  -- If no event loop ran when the events were emitted, then nothing is ever posted, whatever
  -- happens later: `aclose` does not start the drain task.
  pub posts-after :
      (history : List (Input A))
      → AllOutside history
      → ((after queue_max history).drain ≡ unstarted) × ((after queue_max history).posts ≡ [])
  unfolding after
  posts-after [] o = (refl, refl)
  posts-after (emitted running event ∷ older) o =
      outside (emitted running event) older (o.0, tt) (posts-after older o.1)
  posts-after (scheduled timed_out ∷ older) o =
      outside (scheduled timed_out) older tt (posts-after older o)
  posts-after (answered ∷ older) o = outside answered older tt (posts-after older o)
  posts-after (closing ∷ older) o = outside closing older tt (posts-after older o)
  posts-after (gave_up ∷ older) o = outside gave_up older tt (posts-after older o)
