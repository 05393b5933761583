-- ===== src/Progress/Coalescer/Delivery.antt =====
-- An update is part of the batch that will carry it, and its waiter gets the batch's answer.
mod Examples
use mathlib.Core.Path.{subst}
use mathlib.Core.Option.{some-injective}
use emby_panel.Prelude.{
  ◌∙◌, ap, ℕ, suc, ◌≡◌, refl, Bool, true, false, ◌==◌, Option, none, some, List, [], ◌∷◌, ◌++◌,
  arith, String, ◌⊎◌, inl, inr, Bool-cases, Option-cases, map, if◌then◌else◌,
}
use emby_panel.Prelude.Maps.{lookup, lookup-insert_self}
use emby_panel.Progress.Global.{ProgressGlobalRuntime}
use emby_panel.Progress.Coalescer.Entry.{
  Config, Batch, Work, batch_work, barrier_work, Entry, has_active, add_update, delete_waiter,
  new_batch, join_batch, schedule_batch, start_work, advance_entry,
}
use emby_panel.Progress.Coalescer.Leaving.{release_each}
use emby_panel.Progress.Coalescer.Calls.{
  Coalescer, Outcome, entry_at, put_entry, enqueue_update, admit_waiter,
}
use emby_panel.Progress.Coalescer.Completion.{
  finish_dispatch, move_on, complete_drain, receive, resolve_canceled_waiter,
}

complete_drain-outcomes : (c : Coalescer) → (complete_drain c).outcomes ≡ c.outcomes
unfolding complete_drain
complete_drain-outcomes c = ground arith

move_on-outcomes :
    (c : Coalescer) (key : String) (g : ProgressGlobalRuntime) (e : Entry)
    → (move_on c key g e).outcomes ≡ c.outcomes
unfolding move_on put_entry
move_on-outcomes c key g e = rw (move_on, complete_drain-outcomes) refl

receive-map :
    (n : ℕ) (outcome : Outcome) (ns : List ℕ) (rest : List (ℕ × Outcome)) {others : List ℕ}
    → delete_waiter n ns ≡ some others
    → (left : List (ℕ × Outcome)) × (receive n (map (λ w. (w, outcome)) ns ++ rest)
        ≡ some (outcome, left))
unfolding receive delete_waiter
receive-map n outcome [] rest h = ground arith
receive-map n outcome (k ∷ ns) rest h = elim (Bool-cases (k == n)) [
  | inl same ↦ (map (λ w. (w, outcome)) ns ++ rest, rw same refl)
  | inr other ↦ elim (Option-cases (delete_waiter n ns)) [
    | inl missing ↦ ground arith
    | inr (others, found) ↦
        let (left, e) = receive-map n outcome ns rest found in
        ((k, outcome) ∷ left, rw (other, e) refl)
  ]
]

-- When the batch that an entry has under way is answered, each of its waiters gets the answer,
-- also when the waiter's own request has ended before it received it.
pub answer_reaches_waiters :
    (c : Coalescer) (key : String) (n : ℕ) (e : Entry) (b : Batch) (outcome : Outcome)
    (waiter now ended_at : ℕ) {others : List ℕ}
    → entry_at c key n ≡ some e
    → e.active_batch ≡ some b
    → delete_waiter waiter b.waiters ≡ some others
    → (resolve_canceled_waiter (finish_dispatch c key n b outcome now) key n waiter ended_at).1
      ≡ some outcome
unfolding finish_dispatch resolve_canceled_waiter
answer_reaches_waiters c key n e b outcome waiter now ended_at here active h =
    let same : (b.id == b.id) ≡ true = ground arith in
    let (left, got) = receive-map waiter outcome b.waiters c.outcomes h in
    let given : (finish_dispatch c key n b outcome now).outcomes
        ≡ map (λ w. (w, outcome)) b.waiters ++ c.outcomes =
      rw (finish_dispatch, here, active, same, move_on-outcomes) refl in
    rw (resolve_canceled_waiter, given, got) refl

-- The last piece of work of a queue.
last_work : List Work → Option Work
last_work [] = none
last_work (w ∷ []) = some w
last_work (w ∷ v ∷ rest) = last_work (v ∷ rest)

-- A batch that carries an update: it sends the update's request and has its waiter.
Carries : ℕ → ℕ → Batch → Type 0
Carries request n b = (b.request ≡ request) × ((rest : List ℕ) × (b.waiters ≡ n ∷ rest))

schedule_batch-Carries :
    (config : Config) (now request n : ℕ) (b : Batch)
    → Carries request n b
    → Carries request n (schedule_batch config now b)
unfolding schedule_batch Carries
schedule_batch-Carries config now request n b (r, (rest, w)) = (ground arith, (rest, ground arith))

-- The queue is not empty, and its last piece of work is a batch that carries the update.
EndsWith : ℕ → ℕ → List Work → Type 0
EndsWith request n queue =
    (b : Batch) × (last_work queue ≡ some (batch_work b)) × Carries request n b

module _ (config : Config) (now n request : ℕ) where
  new_batch-Carries : Carries request n (schedule_batch config now (new_batch now n request))
  unfolding new_batch Carries
  new_batch-Carries =
      schedule_batch-Carries config now request n (new_batch now n request) (refl, ([], refl))

  join_batch-Carries :
      (b : Batch) → Carries request n (schedule_batch config now (join_batch now n request b))
  unfolding join_batch Carries
  join_batch-Carries b =
      schedule_batch-Carries config now request n (join_batch now n request b)
        (refl, (b.waiters, refl))

  add_update-last_work :
      (w v : Work) (rest : List Work)
      → last_work (w ∷ add_update config now n request (v ∷ rest))
        ≡ last_work (add_update config now n request (v ∷ rest))
  unfolding add_update last_work
  add_update-last_work w (barrier_work k) [] = refl
  add_update-last_work w (batch_work b) [] = refl
  add_update-last_work w v (u ∷ rest) = refl

  add_update-EndsWith :
      (queue : List Work) → EndsWith request n (add_update config now n request queue)
  unfolding add_update EndsWith last_work
  add_update-EndsWith [] = (_, refl, new_batch-Carries)
  add_update-EndsWith (barrier_work k ∷ []) = (_, refl, new_batch-Carries)
  add_update-EndsWith (batch_work b ∷ []) = (_, refl, join_batch-Carries b)
  add_update-EndsWith (w ∷ v ∷ rest) =
      let (b, last, carries) = add_update-EndsWith (v ∷ rest) in
      (b, add_update-last_work w v rest ∙ last, carries)

-- The update is part of the batch that is last in the queue, or that is under way.
pub IsCarried : ℕ → ℕ → Entry → Type 0
IsCarried request n e =
    (b : Batch) × Carries request n b
    × ((e.active_batch ≡ some b) ⊎ (last_work e.queue ≡ some (batch_work b)))

start_work-IsCarried :
    (request n : ℕ) (e : Entry) (queue : List Work)
    → e.queue ≡ queue
    → EndsWith request n queue
    → IsCarried request n (start_work e queue)
unfolding start_work last_work EndsWith IsCarried
start_work-IsCarried request n e [] same (b, last, carries) = ground arith
start_work-IsCarried request n e (barrier_work k ∷ []) same (b, last, carries) = ground arith
start_work-IsCarried request n e (batch_work a ∷ []) same (b, last, carries) =
    elim (Bool-cases a.ready) [
      | inl ready ↦ rw (start_work, ready) (b, carries, inl (ground arith))
      | inr waits ↦ rw (start_work, waits) (b, carries, inr (rw same last))
    ]
start_work-IsCarried request n e (barrier_work k ∷ v ∷ rest) same (b, last, carries) =
    (b, carries, inr last)
start_work-IsCarried request n e (batch_work a ∷ v ∷ rest) same (b, last, carries) =
    elim (Bool-cases a.ready) [
      | inl ready ↦ rw (start_work, ready) (b, carries, inr last)
      | inr waits ↦ rw (start_work, waits) (b, carries, inr (rw same last))
    ]

advance_entry-id : (e : Entry) → (advance_entry e).id ≡ e.id
unfolding advance_entry start_work
advance_entry-id e = ground arith

advance_entry-IsCarried :
    (request n : ℕ) (e : Entry) → EndsWith request n e.queue → IsCarried request n (advance_entry e)
unfolding advance_entry IsCarried EndsWith
advance_entry-IsCarried request n e (b, last, carries) = elim (Bool-cases (has_active e)) [
  | inl busy ↦ rw (advance_entry, busy) (b, carries, inr last)
  | inr idle ↦
      rw (advance_entry, idle) (start_work-IsCarried request n e e.queue refl (b, last, carries))
]

-- An update that is accepted is part of a batch of its key, which is the last that is queued
-- or is under way: the batch now sends this update's request, whatever it sent before, and has
-- the update's waiter.
pub enqueue_update-IsCarried :
    (c : Coalescer) (key : String) (request now : ℕ) (caller : ℕ × ℕ)
    → (enqueue_update c key request now).1 ≡ some caller
    → (e : Entry) × (lookup key (enqueue_update c key request now).0.entries ≡ some e)
      × (e.id ≡ caller.0)
      × IsCarried request caller.1 e
unfolding enqueue_update put_entry
enqueue_update-IsCarried c key request now caller accepted =
    let d = (admit_waiter c key now).0 in
    elim (Option-cases (admit_waiter c key now).1) [
      | inl refused ↦ ground arith
      | inr ((g, e), taken) ↦
          let changed : Entry = record e {
            queue = add_update d.config now d.next_id request e.queue;
            last_activity = now;
          } in
          let own =
            some-injective (e.id, d.next_id) caller (rw (enqueue_update, taken) at accepted) in
          rw (enqueue_update, taken)
            (
              advance_entry changed,
              lookup-insert_self key (advance_entry changed) d.entries,
              advance_entry-id changed ∙ ap (λ p. p.0) own,
              subst (λ n. IsCarried request n (advance_entry changed)) (ap (λ p. p.1) own)
                  (advance_entry-IsCarried request d.next_id changed
                    (add_update-EndsWith d.config now d.next_id request e.queue)),
            )
    ]
