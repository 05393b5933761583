-- ===== src/Progress/Coalescer/Termination.antt =====
-- How answers and released barriers bring a drain forward.
mod Examples
use emby_panel.Prelude.{
  ℕ, zero, suc, ◌+◌, ◌-◌, ◌≤◌, ◌<◌, ◌≡◌, refl, Bool, true, not, ◌&&◌, ◌||◌, ◌==◌, Option, none,
  some, List, [], ◌∷◌, arith, String, inl, inr, length, Bool-cases, map, ◌++◌, str_eq,
  if◌then◌else◌,
}
use emby_panel.Prelude.Maps.{lookup, total, total-insert_old, insert}
use emby_panel.Progress.Global.{ProgressGlobalRuntime}
use emby_panel.Progress.Coalescer.Entry.{
  Batch, Work, batch_work, barrier_work, Entry, is_some, has_active, force_work,
  force_queued_batches, start_work, advance_entry, release_waiter_locked,
}
use emby_panel.Progress.Coalescer.Leaving.{release_each}
use emby_panel.Progress.Coalescer.Calls.{
  Coalescer, Outcome, entry_at, is_draining, is_quiescing, put_entry,
}
use emby_panel.Progress.Coalescer.Completion.{
  finish_dispatch, release_barrier, holds_barrier, move_on, complete_drain, join_error,
}
use emby_panel.Progress.Coalescer.Departure.{entry_at-lookup}
use emby_panel.Progress.Coalescer.Consistency.{IsConsistent}

-- The batches and barriers of an entry, queued or under way.
unfoldable pub works : Entry → ℕ
works e =
    (if is_some e.active_batch then 1 else 0)
    + (if is_some e.active_barrier then 1 else 0)
    + length e.queue

abbrev pub works_of : Coalescer → ℕ
works_of c = total works c.entries

-- A batch that is under way is answered, or a barrier that is under way is released.
pub data Ending (c : Coalescer) : Coalescer → Type 0 where
  is_answered :
      (key : String) (n now : ℕ) (outcome : Outcome) (b : Batch) (e : Entry)
      → entry_at c key n ≡ some e
      → e.active_batch ≡ some b
      → Ending c (finish_dispatch c key n b outcome now)
  is_released :
      (key : String) (n now barrier : ℕ) (e : Entry)
      → entry_at c key n ≡ some e
      → e.active_barrier ≡ some barrier
      → Ending c (release_barrier c key n barrier now)

-- A number of endings, one after another.
pub data Endings (c : Coalescer) : ℕ → Coalescer → Type 0 where
  no_more : Endings c 0 c
  one_more : {n : ℕ} {d u : Coalescer} → Endings c n d → Ending d u → Endings c (suc n) u

force_work-length : (queue : List Work) → length (force_work queue) ≡ length queue
unfolding force_work
force_work-length [] = refl
force_work-length (batch_work b ∷ rest) = omega (arith, force_work-length rest)
force_work-length (barrier_work k ∷ rest) = omega (arith, force_work-length rest)

advance_entry-works : (e : Entry) → works (advance_entry e) ≡ works e
unfolding advance_entry start_work has_active works
advance_entry-works e = ground arith

complete_drain-entries : (c : Coalescer) → (complete_drain c).entries ≡ c.entries
unfolding complete_drain
complete_drain-entries c = ground arith

moved-works :
    (c : Coalescer) (f : Entry)
    → works (advance_entry (if is_draining c.state then force_queued_batches f else f)) ≡ works f
unfolding works force_queued_batches
moved-works c f = elim (Bool-cases (is_draining c.state)) [
  | inr flows ↦ rw flows (advance_entry-works f)
  | inl drains ↦
      rw drains
        (omega (arith, advance_entry-works (force_queued_batches f), force_work-length f.queue))
]

move_on-works :
    (c : Coalescer) (key : String) (g : ProgressGlobalRuntime) (e f : Entry)
    → lookup key c.entries ≡ some e
    → works e ≡ suc (works f)
    → works_of c ≡ suc (works_of (move_on c key g f))
unfolding move_on put_entry
move_on-works c key g e f found one =
    rw complete_drain-entries
      (omega (arith, one, moved-works c f, total-insert_old works key e _ c.entries found))

release_waiter_locked-works :
    (g : ProgressGlobalRuntime) (e : Entry) → works (release_waiter_locked g e).1 ≡ works e
unfolding release_waiter_locked works
release_waiter_locked-works g e = ground arith

release_each-works :
    (ns : List ℕ) (g : ProgressGlobalRuntime) (e : Entry) → works (release_each ns g e).1 ≡ works e
unfolding release_each
release_each-works [] g e = refl
release_each-works (n ∷ ns) g e = omega (
  arith,
  release_waiter_locked-works g e,
  release_each-works ns (release_waiter_locked g e).0 (release_waiter_locked g e).1,
)

Ending-works : {c d : Coalescer} → Ending c d → works_of c ≡ suc (works_of d)
unfolding finish_dispatch release_barrier works holds_barrier
Ending-works {c} (is_answered key n now outcome b e here active) =
    let same : (b.id == b.id) ≡ true = ground arith in
    let ended : Entry = record e { active_batch = none; last_activity = now } in
    let one : works e ≡ suc (works ended) = ground arith in
    rw (finish_dispatch, here, active, same)
      (move_on-works
        (record c {
          drain = join_error c outcome.error;
          outcomes = map (λ w. (w, outcome)) b.waiters ++ c.outcomes;
          released = b.request ∷ c.released;
        })
        key _ e _ (entry_at-lookup c key n here)
        (omega (arith, one, release_each-works b.waiters c.global ended)))
Ending-works {c} (is_released key n now barrier e here active) =
    let held : holds_barrier e barrier ≡ true = ground arith in
    let ended : Entry = record e { active_barrier = none } in
    let one : works e ≡ suc (works ended) = ground arith in
    rw (release_barrier, here, held)
      (move_on-works c key _ e _ (entry_at-lookup c key n here)
        (omega (arith, one, release_waiter_locked-works c.global ended)))

pub Endings-works : {c d : Coalescer} {n : ℕ} → Endings c n d → n + works_of d ≡ works_of c
Endings-works no_more = omega arith
Endings-works (one_more r s) = omega (arith, Endings-works r, Ending-works s)
