-- ===== src/Progress/Coalescer/Completion.antt =====
-- legacy_progress.go: what ends the work of progressCoalescer, and its draining and closing.
use emby_panel.Prelude.{
  ℕ, suc, ◌-◌, Bool, true, false, ◌&&◌, ◌||◌, ◌==◌, ltb, Option, none, some, List, [], ◌∷◌, ◌++◌,
  map, String, if◌then◌else◌,
}
use emby_panel.Prelude.Maps.{Map, insert, total, size}
use emby_panel.Progress.Global.{ProgressGlobalRuntime, release_key}
use emby_panel.Progress.Coalescer.Entry.{
  Batch, Work, batch_work, barrier_work, Entry, is_some, is_idle, release_waiter_locked,
  force_queued_batches, advance_entry,
}
use emby_panel.Progress.Coalescer.Leaving.{forget_waiter, remove_barrier, release_each}
use emby_panel.Progress.Coalescer.Calls.{
  Coalescer, open_state, quiescing, draining, drained, closed, Outcome, DrainCycle, is_open,
  is_quiescing, is_draining, is_closed, entry_at, put_entry,
}

unfoldable pub begin_progress_ingress : Coalescer → Coalescer × Bool
begin_progress_ingress c =
    if is_open c.state then (record c { admissions = suc c.admissions }, true) else (c, false)

unfoldable pub all_idle : Map Entry → Bool
unfolding is_idle
all_idle [] = true
all_idle ((key, e) ∷ rest) = is_idle e && all_idle rest

unfoldable pub complete_drain : Coalescer → Coalescer
unfolding all_idle
complete_drain c = elim c.drain [
  | none ↦ c
  | some cycle ↦
      if is_draining c.state && c.admissions == 0 && all_idle c.entries
      then record c {
        drain = none;
        state = (elim cycle.err [ [] ↦ drained | e ∷ es ↦ open_state ]);
        finished = cycle ∷ c.finished;
      }
      else c
]

unfoldable pub force_entries : Map Entry → Map Entry
unfolding force_queued_batches advance_entry
force_entries [] = []
force_entries ((key, e) ∷ rest) = (key, advance_entry (force_queued_batches e)) ∷ force_entries rest

unfoldable pub advance_drain : Coalescer → Coalescer
unfolding complete_drain force_entries
advance_drain c =
    if is_quiescing c.state && is_some c.drain && c.admissions == 0
    then complete_drain (record c { state = draining; entries = force_entries c.entries })
    else c

unfoldable pub end_progress_ingress : Coalescer → Coalescer
unfolding advance_drain
end_progress_ingress c =
    advance_drain
      (record c { admissions = if ltb 0 c.admissions then c.admissions - 1 else c.admissions })

-- Work of an entry has ended: the entry is moved on, and the drain may be over.
unfoldable pub move_on : Coalescer → String → ProgressGlobalRuntime → Entry → Coalescer
unfolding put_entry complete_drain force_queued_batches
move_on c key g e =
    complete_drain (put_entry c key g (if is_draining c.state then force_queued_batches e else e))

unfoldable pub join_error : Coalescer → Option ℕ → Option DrainCycle
join_error c error = elim c.drain [
  | none ↦ none
  | some cycle ↦ elim error [
    | none ↦ some cycle
    | some e ↦
        if is_quiescing c.state || is_draining c.state
        then some (record cycle { err = e ∷ cycle.err })
        else some cycle
  ]
]

-- dispatchBatch, from the answer on: the batch's request is released and, when the batch is still
-- the active one of its entry, each of its waiters is given the outcome.
unfoldable pub finish_dispatch : Coalescer → String → ℕ → Batch → Outcome → ℕ → Coalescer
unfolding entry_at release_each join_error move_on
finish_dispatch c key n b outcome now =
    let d : Coalescer = record c { released = b.request ∷ c.released } in
    elim (entry_at c key n) [
      | none ↦ d
      | some e ↦ elim e.active_batch [
        | none ↦ d
        | some a ↦
            let (g, f) =
              release_each a.waiters c.global
                (record e { active_batch = none; last_activity = now }) in
            if a.id == b.id
            then move_on
                (record d {
                  drain = join_error c outcome.error;
                  outcomes = map (λ w. (w, outcome)) a.waiters ++ c.outcomes;
                })
                key g f
            else d
      ]
    ]

-- The outcome that a waiter's channel holds is received.
unfoldable pub receive : ℕ → List (ℕ × Outcome) → Option (Outcome × List (ℕ × Outcome))
receive n [] = none
receive n ((k, o) ∷ rest) =
    if k == n
    then some (o, rest)
    else (elim (receive n rest) [ none ↦ none | some (p, left) ↦ some (p, (k, o) ∷ left) ])

-- A waiter that is not active is in no batch.
unfoldable pub resolve_canceled_waiter : Coalescer → String → ℕ → ℕ → ℕ → Coalescer × Option Outcome
unfolding receive entry_at forget_waiter release_waiter_locked
resolve_canceled_waiter c key n waiter now = elim (receive waiter c.outcomes) [
  | some (o, left) ↦ (record c { outcomes = left }, some o)
  | none ↦ elim (entry_at c key n) [
    | none ↦ (c, none)
    | some e ↦ elim (forget_waiter waiter e) [
      | none ↦ (c, none)
      | some f ↦
          let (g, left) = release_waiter_locked c.global f in
          (
            record c {
              global = g;
              entries = insert key (record left { last_activity = now }) c.entries;
            },
            none,
          )
    ]
  ]
]

unfoldable pub holds_barrier : Entry → ℕ → Bool
holds_barrier e barrier = elim e.active_barrier [ none ↦ false | some k ↦ k == barrier ]

-- waitForBarrier when its context is done: true when the barrier is active.
unfoldable pub cancel_barrier : Coalescer → String → ℕ → ℕ → ℕ → Coalescer × Bool
unfolding entry_at remove_barrier release_waiter_locked put_entry complete_drain holds_barrier
cancel_barrier c key n barrier now = elim (entry_at c key n) [
  | none ↦ (c, false)
  | some e ↦ if holds_barrier e barrier then (c, true) else (elim (remove_barrier barrier e.queue) [
    | none ↦ (c, false)
    | some queue ↦
        let (g, f) = release_waiter_locked c.global (record e { queue = queue }) in
        (complete_drain (put_entry c key g (record f { last_activity = now })), false)
  ])
]

unfoldable pub release_barrier : Coalescer → String → ℕ → ℕ → ℕ → Coalescer
unfolding entry_at release_waiter_locked move_on holds_barrier
release_barrier c key n barrier now = elim (entry_at c key n) [
  | none ↦ c
  | some e ↦
      let (g, f) = release_waiter_locked c.global (record e { active_barrier = none }) in
      if holds_barrier e barrier then move_on c key g (record f { last_activity = now }) else c
]

abbrev cycle_id : Option DrainCycle → Option ℕ
cycle_id none = none
cycle_id (some cycle) = some cycle.id

-- What Drain does under the lock: its second result is the cycle that it waits for.
unfoldable pub begin_drain : Coalescer → Coalescer × Option ℕ
unfolding advance_drain
begin_drain c = elim c.state [
  | closed ↦ (c, none)
  | drained ↦ (c, none)
  | quiescing ↦ (c, cycle_id c.drain)
  | draining ↦ (c, cycle_id c.drain)
  | open_state ↦ (
    advance_drain (record c {
      state = quiescing;
      drain = some (record { id = c.next_id; err = [] });
      next_id = suc c.next_id;
    }),
    some c.next_id,
  )
]

-- The context of the Drain that began a cycle is done before the cycle is.
unfoldable pub cancel_drain : Coalescer → ℕ → Coalescer
cancel_drain c n = elim c.drain [
  | none ↦ c
  | some cycle ↦
      if (is_quiescing c.state || is_draining c.state) && cycle.id == n
      then record c { state = open_state; drain = none }
      else c
]

unfoldable pub release_keys : Map Entry → ProgressGlobalRuntime → ProgressGlobalRuntime
release_keys [] g = g
release_keys ((key, e) ∷ rest) g = release_keys rest (release_key g)

unfoldable pub queued_requests : List Work → List ℕ
queued_requests [] = []
queued_requests (batch_work b ∷ rest) = b.request ∷ queued_requests rest
queued_requests (barrier_work k ∷ rest) = queued_requests rest

unfoldable pub requests_of_entries : Map Entry → List ℕ
unfolding queued_requests
requests_of_entries [] = []
requests_of_entries ((key, e) ∷ rest) = queued_requests e.queue ++ requests_of_entries rest

unfoldable pub close_coalescer : Coalescer → Coalescer
unfolding release_keys requests_of_entries
close_coalescer c = if is_closed c.state then c else record c {
  state = closed;
  global = release_keys c.entries c.global;
  released = requests_of_entries c.entries ++ c.released;
  entries = [];
}

-- The keys and the waiters of the site.
unfoldable pub active_counts : Coalescer → ℕ × ℕ
active_counts c = (size c.entries, total (λ e. e.waiters) c.entries)
