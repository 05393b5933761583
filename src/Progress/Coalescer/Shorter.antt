-- ===== src/Progress/Coalescer/Shorter.antt =====
-- What leaves a queue is one waiter of it, and the rest of the queue waits as it did.
use emby_panel.Prelude.{
  ℕ, suc, ◌+◌, ◌≡◌, true, false, some, List, [], ◌∷◌, length, arith, inl, inr, Option-cases,
}
use emby_panel.Progress.Coalescer.Entry.{
  Config, Work, batch_work, barrier_work, is_empty, mark_ready, delete_waiter,
}
use emby_panel.Progress.Coalescer.Leaving.{forget_in_batch, forget_queued, remove_barrier}
use emby_panel.Progress.Coalescer.Queue.{
  will_be_ready, is_scheduled, all_ready, waits_for_timer, queued,
}

pub delete_waiter-length :
    (n : ℕ) (waiters : List ℕ) {left : List ℕ}
    → delete_waiter n waiters ≡ some left
    → length waiters ≡ suc (length left)
unfolding delete_waiter
delete_waiter-length n [] h = ground arith
delete_waiter-length n (k ∷ rest) h = elim (Option-cases (delete_waiter n rest)) [
  | inl missing ↦ ground arith
  | inr (left, e) ↦ ground (arith, delete_waiter-length n rest e)
]

-- A queue that replaces another with a number of waiters less, and waits like it.
pub record Follows (config : Config) (gone : ℕ) (before after : List Work) : Type 0 where
  pub waiters : queued before ≡ gone + queued after
  pub scheduled : is_scheduled config before ≡ true → is_scheduled config after ≡ true
  pub forced : all_ready before ≡ true → all_ready after ≡ true

module _ (config : Config) where
  pub forget_queued-Follows :
      (n : ℕ) (queue : List Work) {after : List Work}
      → forget_queued n queue ≡ some after
      → Follows config 1 queue after
        × (is_empty after ≡ is_empty queue)
        × (waits_for_timer after ≡ waits_for_timer queue)
  unfolding forget_queued forget_in_batch is_scheduled will_be_ready all_ready queued
  forget_queued-Follows n [] h = ground arith
  forget_queued-Follows n (barrier_work k ∷ rest) h = elim (Option-cases (forget_queued n rest)) [
    | inl missing ↦ ground arith
    | inr (left, e) ↦
        let (f, same, head) = forget_queued-Follows n rest e in
        ground (arith, f.waiters, f.scheduled, f.forced)
  ]
  forget_queued-Follows n (batch_work b ∷ rest) h =
      elim (Option-cases (delete_waiter n b.waiters)) [
        | inl missing ↦ elim (Option-cases (forget_queued n rest)) [
          | inl none_left ↦ ground arith
          | inr (left, e) ↦
              let (f, same, head) = forget_queued-Follows n rest e in
              ground (arith, f.waiters, f.scheduled, f.forced)
        ]
        | inr (left, e) ↦ ground (arith, delete_waiter-length n b.waiters e)
      ]

  pub remove_barrier-Follows :
      (n : ℕ) (queue : List Work) {after : List Work}
      → remove_barrier n queue ≡ some after
      → Follows config 1 queue after
  unfolding remove_barrier is_scheduled will_be_ready all_ready queued
  remove_barrier-Follows n [] h = ground arith
  remove_barrier-Follows n (barrier_work k ∷ rest) h = elim (Option-cases (remove_barrier n rest)) [
    | inl missing ↦ ground arith
    | inr (left, e) ↦
        let f = remove_barrier-Follows n rest e in ground (arith, f.waiters, f.scheduled, f.forced)
  ]
  remove_barrier-Follows n (batch_work b ∷ rest) h = elim (Option-cases (remove_barrier n rest)) [
    | inl missing ↦ ground arith
    | inr (left, e) ↦
        let f = remove_barrier-Follows n rest e in ground (arith, f.waiters, f.scheduled, f.forced)
  ]

  pub mark_ready-Follows :
      (n generation : ℕ) (queue : List Work) {after : List Work}
      → mark_ready n generation queue ≡ some after
      → Follows config 0 queue after × (all_ready queue ≡ false) × (is_empty after ≡ is_empty queue)
  unfolding mark_ready is_scheduled will_be_ready all_ready queued
  mark_ready-Follows n generation [] h = ground arith
  mark_ready-Follows n generation (barrier_work k ∷ rest) h =
      elim (Option-cases (mark_ready n generation rest)) [
        | inl missing ↦ ground arith
        | inr (left, e) ↦
            let (f, was, same) = mark_ready-Follows n generation rest e in
            ground (arith, f.waiters, f.scheduled, f.forced)
      ]
  mark_ready-Follows n generation (batch_work b ∷ rest) h =
      elim (Option-cases (mark_ready n generation rest)) [
        | inl missing ↦ ground arith
        | inr (left, e) ↦
            let (f, was, same) = mark_ready-Follows n generation rest e in
            ground (arith, f.waiters, f.scheduled, f.forced)
      ]
