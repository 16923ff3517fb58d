-- ===== src/Sdk/Emitter/Steps.antt =====
-- What one step of an `HttpEmitter` does to the events that are posted and queued.
use mathlib.Core.List.{append_assoc, Sublist}
use mathlib.Core.List.Sublist
use mathlib.Core.Path.{subst}
use vfobs.Prelude.{
  ℕ, ◌+◌, ◌-◌, ◌≤◌, ◌<◌, ◌⊎◌, ltb→lt, ltb-false→le, ◌≡◌, refl, ap, sym, ◌∙◌, arith, Bool, true,
  false, List, [], ◌∷◌, ◌++◌, ltb, length, length-append, Bool-cases, inl, inr, if◌then◌else◌,
}
use vfobs.Sdk.Emitter.{
  Drain, looping, waiting, posting, HttpEmitter, Input, emitted, scheduled, answered, closing,
  gave_up, push, tail, take_next, run_loop, run_wait, turn, post_ends, step, emitted_in,
}

module _ {A : Type 0} where
  -- The events that are posted or will be, in this order.
  abbrev pub kept : HttpEmitter A → List A
  kept s = s.posts ++ s.queue

  take_next-kept :
      (q : List A) (s : HttpEmitter A)
      → s.queue ≡ q
      → (kept (take_next q s) ≡ kept s) × (length (take_next q s).queue ≤ length s.queue)
  unfolding take_next
  take_next-kept [] s e = (ap (λ q. s.posts ++ q) (sym e), omega arith)
  take_next-kept (x ∷ xs) s e = (
    append_assoc s.posts (x ∷ []) xs ∙ ap (λ q. s.posts ++ q) (sym e),
    omega (arith, ap length e),
  )

  run_loop-kept :
      (q : List A) (s : HttpEmitter A)
      → s.queue ≡ q
      → (kept (run_loop q s) ≡ kept s) × (length (run_loop q s).queue ≤ length s.queue)
  unfolding run_loop
  run_loop-kept [] s e = elim (Bool-cases s.closed) [
    | inl c ↦ rw (run_loop, c) (refl, omega arith)
    | inr c ↦ rw (run_loop, c) (refl, omega arith)
  ]
  run_loop-kept (x ∷ xs) s e = take_next-kept (x ∷ xs) s e

  run_wait-kept :
      (t : Bool) (s : HttpEmitter A)
      → (kept (run_wait t s) ≡ kept s) × (length (run_wait t s).queue ≤ length s.queue)
  unfolding run_wait
  run_wait-kept t s = go s.wake t
    where
      go :
          (wake t : Bool)
          → (kept (
                if wake then take_next s.queue s else if t then record s { drain = looping } else s)
              ≡ kept s)
            × (length
                  (if wake
                    then take_next s.queue s
                    else if t
                    then record s { drain = looping }
                    else s).queue
                ≤ length s.queue)
      go true t = take_next-kept s.queue s refl
      go false true = (refl, omega arith)
      go false false = (refl, omega arith)

  turn-kept :
      (d : Drain) (t : Bool) (s : HttpEmitter A)
      → (kept (turn d t s) ≡ kept s) × (length (turn d t s).queue ≤ length s.queue)
  unfolding turn
  turn-kept looping t s = run_loop-kept s.queue s refl
  turn-kept waiting t s = run_wait-kept t s
  turn-kept _ t s = (refl, omega arith)

  post_ends-kept :
      (d : Drain) (s : HttpEmitter A)
      → (kept (post_ends d s) ≡ kept s) × (length (post_ends d s).queue ≤ length s.queue)
  unfolding post_ends
  post_ends-kept posting s = (refl, omega arith)
  post_ends-kept _ s = (refl, omega arith)

  tail-Sublist : (l : List A) → Sublist (tail l) l
  unfolding tail
  tail-Sublist [] = Sublist.refl []
  tail-Sublist (x ∷ l) = Sublist.cons x (Sublist.refl l)

  length-tail : (l : List A) → length (tail l) ≡ length l - 1
  unfolding tail
  length-tail [] = omega arith
  length-tail (x ∷ l) = omega arith

module _ {A : Type 0} (queue_max : ℕ) where
  pub push-cases :
      (q : List A) (e : A)
      → ((push queue_max q e ≡ tail (q ++ e ∷ [])) × (queue_max < length q + 1))
        ⊎ ((push queue_max q e ≡ q ++ e ∷ []) × (length q + 1 ≤ queue_max))
  unfolding push
  push-cases q e = elim (Bool-cases (ltb queue_max (length (q ++ e ∷ [])))) [
    | inl t ↦ inl (rw t, omega (arith, ltb→lt _ _ t, length-append q (e ∷ [])))
    | inr f ↦ inr (rw f, omega (arith, ltb-false→le _ _ f, length-append q (e ∷ [])))
  ]

  pub push-Sublist :
      (posts q l : List A) (e : A)
      → Sublist (posts ++ q) l
      → Sublist (posts ++ push queue_max q e) (l ++ e ∷ [])
  push-Sublist posts q l e h =
      let longer =
        subst (λ m. Sublist m (l ++ e ∷ [])) (append_assoc posts q (e ∷ []))
          (Sublist.append h (Sublist.refl (e ∷ []))) in
      elim (push-cases q e) [
        | inl (p, _) ↦ rw p (
            Sublist.trans (Sublist.append (Sublist.refl posts) (tail-Sublist (q ++ e ∷ []))) longer)
        | inr (p, _) ↦ rw p longer
      ]

  pub length-push-le :
      (q : List A) (e : A) → length q ≤ queue_max → length (push queue_max q e) ≤ queue_max
  length-push-le q e h = elim (push-cases q e) [
    | inl (p, _) ↦ omega (arith, ap length p, length-tail (q ++ e ∷ []), length-append q (e ∷ []))
    | inr (p, le) ↦ omega (arith, ap length p, length-append q (e ∷ []), le)
  ]

  -- A step other than an emission keeps the events that are posted or queued.
  pub step-kept :
      (i : Input A) (s : HttpEmitter A)
      → emitted_in (i ∷ []) ≡ []
      → (kept (step queue_max i s) ≡ kept s) × (length (step queue_max i s).queue ≤ length s.queue)
  unfolding step
  step-kept (emitted running event) s e = cc e
  step-kept (scheduled timed_out) s e = turn-kept s.drain timed_out s
  step-kept answered s e = post_ends-kept s.drain s
  step-kept closing s e = (refl, omega arith)
  step-kept gave_up s e = (refl, omega arith)
