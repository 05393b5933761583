-- ===== src/Progress/Coalescer/Handler/Unchanged.antt =====
-- Which calls change the number of admissions.
use emby_panel.Prelude.{
  ℕ, suc, ◌-◌, ◌==◌, ◌≡◌, refl, Bool, Option, some, [], arith, String, Bool-cases, Option-cases,
  inl, inr,
}
use emby_panel.Progress.Global.{ProgressGlobalRuntime}
use emby_panel.Progress.Coalescer.Entry.{Batch, Entry}
use emby_panel.Progress.Coalescer.Leaving.{remove_barrier}
use emby_panel.Progress.Coalescer.Calls.{
  Coalescer, DrainCycle, quiescing, Outcome, draining, is_open, get_or_create_entry,
  release_empty_new_entry, admit_waiter, put_entry, enqueue_update, enqueue_barrier, entry_at,
}
use emby_panel.Progress.Coalescer.Completion.{
  force_entries, holds_barrier, end_progress_ingress, advance_drain, complete_drain, move_on,
  finish_dispatch, resolve_canceled_waiter, cancel_barrier, release_barrier, begin_drain,
}

complete_drain-admissions : (c : Coalescer) → (complete_drain c).admissions ≡ c.admissions
unfolding complete_drain
complete_drain-admissions c = ground arith

advance_drain-admissions : (c : Coalescer) → (advance_drain c).admissions ≡ c.admissions
unfolding advance_drain
advance_drain-admissions c = ground (
  arith,
  complete_drain-admissions (record c { state = draining; entries = force_entries c.entries }),
)

move_on-admissions :
    (c : Coalescer) (key : String) (g : ProgressGlobalRuntime) (e : Entry)
    → (move_on c key g e).admissions ≡ c.admissions
unfolding move_on put_entry
move_on-admissions c key g e = rw (move_on, complete_drain-admissions) refl

pub end_progress_ingress-admissions :
    (c : Coalescer) → (end_progress_ingress c).admissions ≡ c.admissions - 1
unfolding end_progress_ingress
end_progress_ingress-admissions c =
    rw (end_progress_ingress, advance_drain-admissions) (ground arith)

get_or_create_entry-admissions :
    (c : Coalescer) (key : String) (now : ℕ) {d : Coalescer} {e : Entry} {created : Bool}
    → get_or_create_entry c key now ≡ some (d, e, created)
    → d.admissions ≡ c.admissions
unfolding get_or_create_entry
get_or_create_entry-admissions c key now h = ground arith

release_empty_new_entry-admissions :
    (c : Coalescer) (key : String) (e : Entry) (created : Bool)
    → (release_empty_new_entry c key e created).admissions ≡ c.admissions
unfolding release_empty_new_entry
release_empty_new_entry-admissions c key e created = ground arith

admit_waiter-admissions :
    (c : Coalescer) (key : String) (now : ℕ) → (admit_waiter c key now).0.admissions ≡ c.admissions
unfolding admit_waiter
admit_waiter-admissions c key now = elim (Option-cases (get_or_create_entry c key now)) [
  | inl full ↦ ground arith
  | inr ((d, e, created), made) ↦ ground (
    arith,
    get_or_create_entry-admissions c key now made,
    release_empty_new_entry-admissions d key e created,
  )
]

pub enqueue_update-admissions :
    (c : Coalescer) (key : String) (request now : ℕ)
    → (enqueue_update c key request now).0.admissions ≡ c.admissions
unfolding enqueue_update put_entry
enqueue_update-admissions c key request now =
    let same = admit_waiter-admissions c key now in
    elim (Option-cases (admit_waiter c key now).1) [
      | inl refused ↦ rw (enqueue_update, refused) same
      | inr ((g, e), taken) ↦ rw (enqueue_update, taken) same
    ]

pub enqueue_barrier-admissions :
    (c : Coalescer) (key : String) (now : ℕ)
    → (enqueue_barrier c key now).0.admissions ≡ c.admissions
unfolding enqueue_barrier put_entry
enqueue_barrier-admissions c key now =
    let same = admit_waiter-admissions c key now in
    elim (Option-cases (admit_waiter c key now).1) [
      | inl refused ↦ rw (enqueue_barrier, refused) same
      | inr ((g, e), taken) ↦ rw (enqueue_barrier, taken) same
    ]

pub resolve_canceled_waiter-admissions :
    (c : Coalescer) (key : String) (n waiter now : ℕ)
    → (resolve_canceled_waiter c key n waiter now).0.admissions ≡ c.admissions
unfolding resolve_canceled_waiter
resolve_canceled_waiter-admissions c key n waiter now = ground arith

pub cancel_barrier-admissions :
    (c : Coalescer) (key : String) (n barrier now : ℕ)
    → (cancel_barrier c key n barrier now).0.admissions ≡ c.admissions
unfolding cancel_barrier put_entry
cancel_barrier-admissions c key n barrier now = elim (Option-cases (entry_at c key n)) [
  | inl gone ↦ rw (cancel_barrier, gone) refl
  | inr (e, here) ↦ elim (Bool-cases (holds_barrier e barrier)) [
    | inl held ↦ rw (cancel_barrier, here, held) refl
    | inr other ↦ elim (Option-cases (remove_barrier barrier e.queue)) [
      | inl missing ↦ rw (cancel_barrier, here, other, missing) refl
      | inr (queue, left) ↦ rw (cancel_barrier, here, other, left, complete_drain-admissions) refl
    ]
  ]
]

pub release_barrier-admissions :
    (c : Coalescer) (key : String) (n barrier now : ℕ)
    → (release_barrier c key n barrier now).admissions ≡ c.admissions
unfolding release_barrier
release_barrier-admissions c key n barrier now = elim (Option-cases (entry_at c key n)) [
  | inl gone ↦ rw (release_barrier, gone) refl
  | inr (e, here) ↦ elim (Bool-cases (holds_barrier e barrier)) [
    | inr other ↦ rw (release_barrier, here, other) refl
    | inl held ↦ rw (release_barrier, here, held, move_on-admissions) refl
  ]
]

pub finish_dispatch-admissions :
    (c : Coalescer) (key : String) (n : ℕ) (b : Batch) (outcome : Outcome) (now : ℕ)
    → (finish_dispatch c key n b outcome now).admissions ≡ c.admissions
unfolding finish_dispatch
finish_dispatch-admissions c key n b outcome now = elim (Option-cases (entry_at c key n)) [
  | inl gone ↦ rw (finish_dispatch, gone) refl
  | inr (e, here) ↦ elim (Option-cases e.active_batch) [
    | inl idle ↦ rw (finish_dispatch, here, idle) refl
    | inr (a, active) ↦ elim (Bool-cases (a.id == b.id)) [
      | inr other ↦ rw (finish_dispatch, here, active, other) refl
      | inl own ↦ rw (finish_dispatch, here, active, own, move_on-admissions) refl
    ]
  ]
]

pub begin_drain-admissions : (c : Coalescer) → (begin_drain c).0.admissions ≡ c.admissions
unfolding begin_drain
begin_drain-admissions c = elim (Bool-cases (is_open c.state)) [
  | inr other ↦ ground arith
  | inl free ↦
      let cycle : Option DrainCycle = some (record { id = c.next_id; err = [] }) in
      let d : Coalescer = record c { state = quiescing; drain = cycle; next_id = suc c.next_id } in
      let begun : (begin_drain c).0 ≡ advance_drain d = ground arith in
      rw begun (advance_drain-admissions d)
]
