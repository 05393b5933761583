-- ===== src/Progress/Coalescer/Handler.antt =====
-- legacy_progress.go: progressCoalescer.ServeHTTP, as the steps of one request between which
-- others may act: its admission, its enqueueing, and the wait for its answer or for its barrier. A
-- handler sees that its barrier is granted before the coalescer is closed, as a site closes its
-- coalescer when all its requests have ended.
pub mod Unchanged
pub mod Admissions
mod Examples
use emby_panel.Prelude.{ℕ, ◌∷◌, Bool, true, false, Option, none, some, String, if◌then◌else◌}
use emby_panel.Progress.Coalescer.Calls.{
  Coalescer, Outcome, is_open, enqueue_update, enqueue_barrier, entry_at,
}
use emby_panel.Progress.Coalescer.Completion.{
  begin_progress_ingress, end_progress_ingress, receive, resolve_canceled_waiter, cancel_barrier,
  release_barrier, holds_barrier,
}

-- `key` is none when the body is not complete, or names no playback, or has no credential.
pub record Report : Type 0 where
  pub is_stopped : Bool
  pub key : Option String
  pub request : ℕ

-- Where a handler is: at its start, admitted, waiting with the ids of its entry and of its waiter
-- or barrier, serving the end of a playback by the ordinary handler, or done. A handler that is
-- done has served the report by the ordinary handler, has answered 503, has given the outcome of
-- a batch, or has given nothing since its client is gone.
pub data Phase : Type 0 where
  starting admitted : Phase
  awaits_answer awaits_barrier serves_stop : ℕ → ℕ → Phase
  served_ordinary answered_unavailable gave_nothing : Phase
  gave_outcome : Outcome → Phase

-- The answer of a fallback; the admission ends after it.
unfoldable pub fall_back : Coalescer → Coalescer × Phase
fall_back c =
    (end_progress_ingress c, if is_open c.state then served_ordinary else answered_unavailable)

unfoldable pub enqueue : Report → String → ℕ → Coalescer → Coalescer × Phase
unfolding fall_back
enqueue r key now c =
    if r.is_stopped
    then (let (d, accepted) = enqueue_barrier c key now in
        elim accepted [
          | none ↦ fall_back d
          | some (n, barrier) ↦ (end_progress_ingress d, awaits_barrier n barrier)
        ])
    else (let (d, accepted) = enqueue_update c key r.request now in
        elim accepted [
          | none ↦ fall_back (record d { released = r.request ∷ d.released })
          | some (n, waiter) ↦ (end_progress_ingress d, awaits_answer n waiter)
        ])

unfoldable pub await_answer : String → ℕ → ℕ → ℕ → Bool → Coalescer → Coalescer × Phase
await_answer key n waiter now gone c = elim (receive waiter c.outcomes) [
  | some (outcome, left) ↦ (record c { outcomes = left }, gave_outcome outcome)
  | none ↦
      let (d, outcome) = resolve_canceled_waiter c key n waiter now in
      if gone
      then (elim outcome [ none ↦ (d, gave_nothing) | some o ↦ (d, gave_outcome o) ])
      else (c, awaits_answer n waiter)
]

-- The barrier is active in its entry.
unfoldable pub is_granted : Coalescer → String → ℕ → ℕ → Bool
is_granted c key n barrier = elim (entry_at c key n) [
  | none ↦ false
  | some e ↦ holds_barrier e barrier
]

unfoldable pub await_barrier : String → ℕ → ℕ → ℕ → Bool → Coalescer → Coalescer × Phase
unfolding is_granted
await_barrier key n barrier now gone c =
    let (d, active) = cancel_barrier c key n barrier now in
    if is_granted c key n barrier
    then (c, serves_stop n barrier)
    else (if gone
        then (d, if active then serves_stop n barrier else gave_nothing)
        else (c, awaits_barrier n barrier))

-- The next step of a handler at an instant; `gone` says that its client is gone by then.
unfoldable pub step : Report → ℕ → Bool → Coalescer → Phase → Coalescer × Phase
unfolding enqueue await_answer await_barrier fall_back
step r now gone c starting =
    let (d, taken) = begin_progress_ingress c in
    (d, if taken then admitted else answered_unavailable)
step r now gone c admitted = elim r.key [ none ↦ fall_back c | some key ↦ enqueue r key now c ]
step r now gone c (awaits_answer n waiter) = elim r.key [
  | none ↦ (c, gave_nothing)
  | some key ↦ await_answer key n waiter now gone c
]
step r now gone c (awaits_barrier n barrier) = elim r.key [
  | none ↦ (c, gave_nothing)
  | some key ↦ await_barrier key n barrier now gone c
]
step r now gone c (serves_stop n barrier) = elim r.key [
  | none ↦ (c, gave_nothing)
  | some key ↦ (release_barrier c key n barrier now, if gone then gave_nothing else served_ordinary)
]
step r now gone c phase = (c, phase)
