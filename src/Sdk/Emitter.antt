-- ===== src/Sdk/Emitter.antt =====
-- `HttpEmitter` of sdk/python/vfobs_sdk/emitter.py: the buffer, the drain task, and the turns that
-- the event loop gives them.
pub mod Steps
pub mod Order
pub mod Drains
pub mod Warnings
pub mod Substitutes
use vfobs.Prelude.{
  ℕ, Bool, true, false, not, ◌&&◌, ◌||◌, List, [], ◌∷◌, ◌++◌, ltb, length, if◌then◌else◌, Option,
  none, some, String, str_eq,
}

-- Where the drain task is: before its creation, at the test of its loop, in `wake.wait()`, in
-- `http.post`, returned, or cancelled by `aclose`.
pub data Drain : Type 0 where
  unstarted looping waiting posting ended cancelled : Drain

-- The emitter; `posts` lists the events that it has handed to the HTTP client.
pub record HttpEmitter (A : Type 0) : Type 0 where
  pub queue : List A
  pub wake : Bool
  pub closed : Bool
  pub drain : Drain
  pub posts : List A

-- What happens to an emitter: a call of `emit`, with or without a running event loop; a turn of the
-- drain task, which may find that its wait has timed out; the end of a post, answered or not; the
-- start of `aclose`; and the time-out of its wait for the drain task.
pub data Input (A : Type 0) : Type 0 where
  emitted : Bool → A → Input A
  scheduled : Bool → Input A
  answered closing gave_up : Input A

-- `_ensure_drain`
unfoldable pub ensure_drain : Bool → Drain → Drain
ensure_drain true unstarted = looping
ensure_drain running drain = drain

-- `self._drain.cancel()`
unfoldable pub cancel : Drain → Drain
cancel unstarted = unstarted
cancel ended = ended
cancel _ = cancelled

module _ {A : Type 0} where
  -- A new emitter.
  abbrev pub new_emitter : HttpEmitter A
  new_emitter = record { queue = []; wake = false; closed = false; drain = unstarted; posts = [] }

  unfoldable pub tail : List A → List A
  tail [] = []
  tail (x ∷ xs) = xs

  -- `append` of a `deque` with `maxlen`: on overflow the oldest is dropped.
  unfoldable pub push : ℕ → List A → A → List A
  unfolding tail
  push queue_max queue event =
      let longer = queue ++ event ∷ [] in
      if ltb queue_max (length longer) then tail longer else longer

  unfoldable pub emit : ℕ → Bool → A → HttpEmitter A → HttpEmitter A
  unfolding push ensure_drain
  emit queue_max running event s = record s {
    queue = push queue_max s.queue event;
    wake = true;
    drain = ensure_drain running s.drain;
  }

  -- `popleft` and the start of the post; an empty queue is `continue`.
  unfoldable pub take_next : List A → HttpEmitter A → HttpEmitter A
  take_next [] s = record s { queue = []; drain = looping }
  take_next (x ∷ xs) s = record s { queue = xs; drain = posting; posts = s.posts ++ x ∷ [] }

  -- The test of the loop of `_run`, up to the next `await`.
  unfoldable pub run_loop : List A → HttpEmitter A → HttpEmitter A
  unfolding take_next
  run_loop [] s =
      if s.closed then record s { drain = ended } else record s { wake = false; drain = waiting }
  run_loop (x ∷ xs) s = take_next (x ∷ xs) s

  -- The end of the wait, where `timed_out` tells whether the time is over.
  unfoldable pub run_wait : Bool → HttpEmitter A → HttpEmitter A
  unfolding take_next
  run_wait timed_out s =
      if s.wake then take_next s.queue s else if timed_out then record s { drain = looping } else s

  -- A turn of the drain task.
  unfoldable pub turn : Drain → Bool → HttpEmitter A → HttpEmitter A
  unfolding run_loop run_wait
  turn looping timed_out s = run_loop s.queue s
  turn waiting timed_out s = run_wait timed_out s
  turn _ timed_out s = s

  -- The end of a post: an exception is logged, and the loop goes on.
  unfoldable pub post_ends : Drain → HttpEmitter A → HttpEmitter A
  post_ends posting s = record s { drain = looping }
  post_ends _ s = s

  unfoldable pub step : ℕ → Input A → HttpEmitter A → HttpEmitter A
  unfolding emit turn post_ends cancel
  step queue_max (emitted running event) s = emit queue_max running event s
  step queue_max (scheduled timed_out) s = turn s.drain timed_out s
  step queue_max answered s = post_ends s.drain s
  step queue_max closing s = record s { closed = true; wake = true }
  step queue_max gave_up s = record s { drain = cancel s.drain }

  -- A history of the emitter, the latest input first.
  unfoldable pub after : ℕ → List (Input A) → HttpEmitter A
  unfolding step
  after queue_max [] = new_emitter
  after queue_max (i ∷ older) = step queue_max i (after queue_max older)

  -- The events that were emitted in a history, the earliest first.
  abbrev pub emitted_in : List (Input A) → List A
  emitted_in [] = []
  emitted_in (emitted running event ∷ older) = emitted_in older ++ event ∷ []
  emitted_in (_ ∷ older) = emitted_in older

-- What `make_emitter` chooses: whether it is an `HttpEmitter`, and not a `NullEmitter`.
abbrev given : Option String → Bool
given none = false
given (some s) = not (str_eq s "")

unfoldable pub makes_http_emitter : Bool → Option String → Option String → Bool
makes_http_emitter enabled url token = enabled && (given url && given token)
