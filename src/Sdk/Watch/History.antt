-- ===== src/Sdk/Watch/History.antt =====
-- What `from_events` makes of a task's events: the first claim, the latest heartbeat and workdir
-- change, and whether a terminal state was reached.
use mathlib.Core.Path.{subst}
use vfobs.Prelude.{
  String, str_eq, eq_iff, ◌≡◌, refl, ap, sym, ◌∙◌, Bool, true, false, ◌||◌, ◌&&◌, Option, List, [],
  ◌∷◌, inl, inr, arith, if◌then◌else◌,
}
use vfobs.Prelude.Result.{ok, raise, Result-cases}
use vfobs.Sdk.ReadClient.{StoredEventView}
use vfobs.Sdk.Watch.State.{
  Clock, WatchState, Seen, parse_ts, is_terminal, first_of_two, latest_of_two, see, see_all,
  nothing_seen, from_events,
}
use vfobs.Sdk.Watch.Latest.{
  OrderLaws, first?, IsLatest, fold_latest, first_or, first_or-if, fold_latest-if,
  fold_latest-IsLatest,
}

exclusive : (x a b : String) → str_eq a b ≡ false → str_eq x a ≡ true → str_eq x b ≡ false
exclusive x a b ne e = ground (arith, eq_iff x a, eq_iff x b, eq_iff a b)

module _ (K : Clock) where
  -- The times of the events of one type.
  abbrev pub times : {Data : Type 0} → String → List (StoredEventView Data) → List K.Datetime
  times type_ [] = []
  times type_ (e ∷ es) = elim (parse_ts K e.timestamp) [
    | raise x ↦ times type_ es
    | ok ts ↦ if str_eq e.type_ type_ then ts ∷ times type_ es else times type_ es
  ]

  module _ {Data : Type 0} (to_status : Data → Option String) where
    -- Some event of the list takes the task to a terminal state.
    abbrev pub reaches_terminal : List (StoredEventView Data) → Bool
    reaches_terminal [] = false
    reaches_terminal (e ∷ es) =
        (str_eq e.type_ "task.state_changed" && is_terminal (to_status e.payload))
        || reaches_terminal es

    module _ (w : Seen K) (e : StoredEventView Data) (ts : K.Datetime) where
      see-claimed :
          (see K to_status w e ts).claimed_at
          ≡ (if str_eq e.type_ "task.claimed" then first_of_two K w.claimed_at ts else w.claimed_at)
      unfolding see
      see-claimed = ground arith

      see-hb :
          (see K to_status w e ts).hb
          ≡ (if str_eq e.type_ "task.heartbeat" then latest_of_two K w.hb ts else w.hb)
      unfolding see
      see-hb = ground (arith, exclusive e.type_ "task.claimed" "task.heartbeat" refl)

      see-workdir : (see K to_status w e ts).workdir_at ≡ (
          if str_eq e.type_ "task.workdir_changed"
          then latest_of_two K w.workdir_at ts
          else w.workdir_at)
      unfolding see
      see-workdir = ground (
        arith,
        exclusive e.type_ "task.claimed" "task.workdir_changed" refl,
        exclusive e.type_ "task.heartbeat" "task.workdir_changed" refl,
      )

      see-terminal :
          (see K to_status w e ts).terminal
          ≡ w.terminal || (str_eq e.type_ "task.state_changed" && is_terminal (to_status e.payload))
      unfolding see
      see-terminal = ground (
        arith,
        exclusive e.type_ "task.claimed" "task.state_changed" refl,
        exclusive e.type_ "task.heartbeat" "task.state_changed" refl,
        exclusive e.type_ "task.workdir_changed" "task.state_changed" refl,
      )

    times_cons :
        (type_ : String) (e : StoredEventView Data) (es : List (StoredEventView Data))
        (ts : K.Datetime)
        → parse_ts K e.timestamp ≡ ok ts
        → times type_ (e ∷ es)
          ≡ (if str_eq e.type_ type_ then ts ∷ times type_ es else times type_ es)
    times_cons type_ e es ts p = ground (arith, p)

    -- What the loop returns, field by field, from what it had seen before.
    record Follows (w : Seen K) (es : List (StoredEventView Data)) (w' : Seen K) : Type 0 where
      claimed : w'.claimed_at ≡ first_or K w.claimed_at (times "task.claimed" es)
      heartbeat : w'.hb ≡ fold_latest K w.hb (times "task.heartbeat" es)
      workdir : w'.workdir_at ≡ fold_latest K w.workdir_at (times "task.workdir_changed" es)
      ended : w'.terminal ≡ w.terminal || reaches_terminal es

    see_all-Follows :
        (w w' : Seen K) (es : List (StoredEventView Data))
        → see_all K to_status w es ≡ ok w'
        → Follows w es w'
    unfolding see_all
    see_all-Follows w w' [] h = record {
      claimed = unfold first_or in ground (arith, h);
      heartbeat = unfold fold_latest in ground (arith, h);
      workdir = unfold fold_latest in ground (arith, h);
      ended = ground (arith, h);
    }
    see_all-Follows w w' (e ∷ es) h = elim (Result-cases (parse_ts K e.timestamp)) [
      | inl (ts, p) ↦
          step ts p (see_all-Follows (see K to_status w e ts) w' es (rw (p, see_all) at h))
      | inr (x, p) ↦ absurd (cc (rw (p, see_all) at h))
    ]
      where
        step :
            (ts : K.Datetime)
            → parse_ts K e.timestamp ≡ ok ts
            → Follows (see K to_status w e ts) es w'
            → Follows w (e ∷ es) w'
        step ts p f = record {
          claimed =
              f.claimed
              ∙ ap (λ o. first_or K o (times "task.claimed" es)) (see-claimed w e ts)
              ∙ sym (first_or-if K (str_eq e.type_ "task.claimed") w.claimed_at ts _)
              ∙ ap (first_or K w.claimed_at) (sym (times_cons "task.claimed" e es ts p));
          heartbeat =
              f.heartbeat
              ∙ ap (λ o. fold_latest K o (times "task.heartbeat" es)) (see-hb w e ts)
              ∙ sym (fold_latest-if K (str_eq e.type_ "task.heartbeat") w.hb ts _)
              ∙ ap (fold_latest K w.hb) (sym (times_cons "task.heartbeat" e es ts p));
          workdir =
              f.workdir
              ∙ ap (λ o. fold_latest K o (times "task.workdir_changed" es)) (see-workdir w e ts)
              ∙ sym (fold_latest-if K (str_eq e.type_ "task.workdir_changed") w.workdir_at ts _)
              ∙ ap (fold_latest K w.workdir_at) (sym (times_cons "task.workdir_changed" e es ts p));
          ended = ground (arith, f.ended, see-terminal w e ts);
        }

-- If `from_events` returns, then: the claim is the time of the first claim event; the heartbeat and
-- the workdir change are the latest of their events' times, and None exactly where there are none;
-- the state is terminal exactly if some event reached a terminal status.
pub from_events_lem :
    (K : Clock) (laws : OrderLaws K) {Data : Type 0} (to_status : Data → Option String)
    (events : List (StoredEventView Data)) (now : K.Datetime) (timeout : K.Seconds)
    (s : WatchState K)
    → from_events K to_status events now timeout ≡ ok s
    → (s.claimed_at ≡ first? (times K "task.claimed" events))
      × IsLatest K (times K "task.heartbeat" events) s.last_heartbeat_at
      × IsLatest K (times K "task.workdir_changed" events) s.last_workdir_change_at
      × (s.terminal ≡ reaches_terminal K to_status events)
unfolding from_events first_or
from_events_lem K laws to_status events now timeout s h =
    elim (Result-cases (see_all K to_status (nothing_seen K to_status) events)) [
      | inl (w, p) ↦
          let f = see_all-Follows K to_status (nothing_seen K to_status) w events p in
          let c : s.claimed_at ≡ w.claimed_at = ground (arith, h, p) in
          let b : s.last_heartbeat_at ≡ w.hb = ground (arith, h, p) in
          let d : s.last_workdir_change_at ≡ w.workdir_at = ground (arith, h, p) in
          let t : s.terminal ≡ w.terminal = ground (arith, h, p) in
          (
            c ∙ f.claimed,
            subst (IsLatest K (times K "task.heartbeat" events)) (sym (b ∙ f.heartbeat))
                (fold_latest-IsLatest K laws (times K "task.heartbeat" events)),
            subst (IsLatest K (times K "task.workdir_changed" events)) (sym (d ∙ f.workdir))
                (fold_latest-IsLatest K laws (times K "task.workdir_changed" events)),
            t ∙ f.ended,
          )
      | inr (x, p) ↦ absurd (ground (arith, h, p))
    ]

-- Every event of the list has a time that parses.
abbrev pub AllParse : (K : Clock) {Data : Type 0} → List (StoredEventView Data) → Type 0
AllParse K [] = Unit
AllParse K (e ∷ es) = ((ts : K.Datetime) × (parse_ts K e.timestamp ≡ ok ts)) × AllParse K es

see_all-AllParse :
    (K : Clock) {Data : Type 0} (to_status : Data → Option String) (w : Seen K)
    (events : List (StoredEventView Data))
    → AllParse K events
    → (w' : Seen K) × (see_all K to_status w events ≡ ok w')
unfolding see_all
see_all-AllParse K to_status w [] a = (w, refl)
see_all-AllParse K to_status w (e ∷ es) ((ts, p), rest) =
    let (w', q) = see_all-AllParse K to_status (see K to_status w e ts) es rest in
    (w', rw (see_all, p) q)

-- If the time of every event parses, `from_events` returns a state, with the time and the time limit
-- that it was given.
pub from_events-AllParse :
    (K : Clock) {Data : Type 0} (to_status : Data → Option String)
    (events : List (StoredEventView Data)) (now : K.Datetime) (timeout : K.Seconds)
    → AllParse K events
    → (s : WatchState K) × (from_events K to_status events now timeout ≡ ok s)
      × (s.now ≡ now)
      × (s.task_timeout_s ≡ timeout)
unfolding from_events
from_events-AllParse K to_status events now timeout a =
    let (w, p) = see_all-AllParse K to_status (nothing_seen K to_status) events a in
    (
      record {
        now = now;
        claimed_at = w.claimed_at;
        last_heartbeat_at = w.hb;
        last_workdir_change_at = w.workdir_at;
        terminal = w.terminal;
        task_timeout_s = timeout;
      },
      rw p,
      refl,
      refl,
    )
