-- ===== src/Progress/Coalescer/Departure.antt =====
-- The calls that end work of an entry keep a coalescer consistent.
use emby_panel.Prelude.{
  ℕ, ◌+◌, ◌-◌, ◌≤◌, ◌≡◌, refl, true, false, none, some, List, [], ◌∷◌, length, arith, Bool-cases,
  Option-cases, inl, inr, String, ◌<◌,
}
use emby_panel.Prelude.Maps.{lookup, total-delete, lookup-AllValues}
use emby_panel.Progress.Global.{ProgressGlobalRuntime, release_waiter}
use emby_panel.Progress.Coalescer.Entry.{
  Config, Work, Entry, is_empty, has_active, is_idle, release_waiter_locked, advance_entry,
  force_queued_batches, mark_ready,
}
use emby_panel.Progress.Coalescer.Leaving.{release_each, remove_barrier}
use emby_panel.Progress.Coalescer.Calls.{
  Coalescer, State, put_entry, is_draining, is_closed, entry_at, mark_batch_ready,
}
use emby_panel.Progress.Coalescer.Completion.{
  move_on, cancel_barrier, release_barrier, holds_barrier,
}
use emby_panel.Progress.Coalescer.Queue.{all_ready, all_ready-force_work}
use emby_panel.Progress.Coalescer.Shorter.{mark_ready-Follows, remove_barrier-Follows}
use emby_panel.Progress.Coalescer.Soundness.{
  IsCounted, IsSound, less-IsCounted, Follows-IsCounted, end_barrier-IsCounted,
  force_queued_batches-IsCounted, advance_entry-all_ready,
}
use emby_panel.Progress.Coalescer.Consistency.{
  IsConsistent, IsConsistent-taken, takes_work, IsFit, fits, put_entry-IsConsistent,
  complete_drain-IsConsistent,
}

-- `count` waiters are released: the counts of the entry and of all sites are as many less.
pub record Releases (config : Config) (g : ProgressGlobalRuntime) (e : Entry)
    (r : ProgressGlobalRuntime × Entry) : Type 0 where
  pub books : IsCounted config 0 r.1
  pub keys : r.0.active_keys ≡ g.active_keys
  pub waiters : r.0.waiters + e.waiters ≡ g.waiters + r.1.waiters
  pub queue : r.1.queue ≡ e.queue

pub release_waiter_locked_lem :
    (g : ProgressGlobalRuntime) (e : Entry)
    → 0 < e.waiters
    → e.waiters ≤ g.waiters
    → release_waiter_locked g e
      ≡ (record g { waiters = g.waiters - 1 }, record e { waiters = e.waiters - 1 })
unfolding release_waiter_locked release_waiter
release_waiter_locked_lem g e some_here some_there = ground arith

pub release_each-Releases :
    (config : Config) (ns : List ℕ) (g : ProgressGlobalRuntime) (e : Entry)
    → IsCounted config (length ns) e
    → e.waiters ≤ g.waiters
    → Releases config g e (release_each ns g e)
unfolding release_each
release_each-Releases config [] g e v enough = record {
  books = v;
  keys = refl;
  waiters = refl;
  queue = refl;
}
release_each-Releases config (n ∷ ns) g e v enough =
    let h : ProgressGlobalRuntime = record g { waiters = g.waiters - 1 } in
    let f : Entry = record e { waiters = e.waiters - 1 } in
    let r =
      release_each-Releases config ns h f (less-IsCounted config e v)
        (omega (arith, v.counted, enough)) in
    rw (release_waiter_locked_lem g e (omega (arith, v.counted)) enough) (record {
      books = r.books;
      keys = r.keys;
      waiters = omega (arith, r.waiters, v.counted, enough);
      queue = r.queue;
    })

pub release_waiter_locked-Releases :
    (config : Config) (g : ProgressGlobalRuntime) (e : Entry)
    → IsCounted config 1 e
    → e.waiters ≤ g.waiters
    → Releases config g e (release_waiter_locked g e)
unfolding release_each
release_waiter_locked-Releases config g e v enough =
    release_each-Releases config (0 ∷ []) g e v enough

pub entry_at-lookup :
    (c : Coalescer) (key : String) (n : ℕ) {e : Entry}
    → entry_at c key n ≡ some e
    → lookup key c.entries ≡ some e
unfolding entry_at
entry_at-lookup c key n h = ground arith

-- Work that leaves an entry that has some leaves it fit.
fits_on :
    (s : State) (e f : Entry)
    → fits s e ≡ true
    → is_idle e ≡ false
    → (all_ready e.queue ≡ true → all_ready f.queue ≡ true)
    → fits s (advance_entry f) ≡ true
unfolding fits
fits_on s e f fit busy forced = ground (arith, advance_entry-all_ready f)

module _ (keys waiting : ℕ) (c : Coalescer) (key : String) {e : Entry}
    (found : lookup key c.entries ≡ some e) (v : IsConsistent true keys waiting c) where
  pub found-IsSound : IsSound c.config e
  found-IsSound = (lookup-AllValues (IsFit c) key c.entries found v.entries_fit).0

  pub found_fits : fits c.state e ≡ true
  found_fits = (lookup-AllValues (IsFit c) key c.entries found v.entries_fit).1

  pub found_enough : e.waiters ≤ c.global.waiters
  found_enough =
      omega (arith, v.waiters_counted, total-delete (λ x. x.waiters) key e c.entries found)

module _ (keys waiting : ℕ) (c : Coalescer) (key : String) {e : Entry}
    (found : lookup key c.entries ≡ some e) (v : IsConsistent true keys waiting c)
    (g : ProgressGlobalRuntime) (f : Entry) (busy : is_idle e ≡ false)
    (forced : all_ready e.queue ≡ true → all_ready f.queue ≡ true) (books : IsCounted c.config 0 f)
    (keys_same : g.active_keys ≡ c.global.active_keys)
    (waiters_moved : g.waiters + e.waiters ≡ c.global.waiters + f.waiters) where
  put_busy-IsConsistent : IsConsistent false keys waiting (put_entry c key g f)
  put_busy-IsConsistent =
      put_entry-IsConsistent keys waiting c true key f g found v books
        (fits_on c.state e f (found_fits keys waiting c key found v) busy forced) keys_same
        waiters_moved

module _ (keys waiting : ℕ) (c : Coalescer) (key : String) {e : Entry}
    (found : lookup key c.entries ≡ some e) (v : IsConsistent true keys waiting c)
    (busy : is_idle e ≡ false) where
  -- What a released piece of work leaves is moved on.
  pub move_on-IsConsistent :
      (e2 : Entry) (r : ProgressGlobalRuntime × Entry)
      → (all_ready e.queue ≡ true → all_ready e2.queue ≡ true)
      → e2.waiters ≡ e.waiters
      → Releases c.config c.global e2 r
      → IsConsistent true keys waiting (move_on c key r.0 r.1)
  unfolding move_on force_queued_batches
  move_on-IsConsistent e2 (g, f) forced same r =
      let moved : g.waiters + e.waiters ≡ c.global.waiters + f.waiters =
        omega (arith, r.waiters, same) in
      elim (Bool-cases (is_draining c.state)) [
        | inr flows ↦ rw flows (
            complete_drain-IsConsistent keys waiting (put_entry c key g f) (
              put_busy-IsConsistent keys waiting c key found v g f busy (λ h. rw r.queue (forced h))
                r.books r.keys moved))
        | inl drains ↦
            let forced_entry = force_queued_batches f in
            rw drains (
              complete_drain-IsConsistent keys waiting (put_entry c key g forced_entry) (
                put_busy-IsConsistent keys waiting c key found v g forced_entry busy
                  (λ h. all_ready-force_work f.queue)
                  (force_queued_batches-IsCounted c.config 0 f r.books) r.keys moved))
      ]

touch-Releases :
    (config : Config) (g : ProgressGlobalRuntime) (e : Entry) (r : ProgressGlobalRuntime × Entry)
    (now : ℕ)
    → Releases config g e r
    → Releases config g e (r.0, record r.1 { last_activity = now })
touch-Releases config g e r now v = record {
  books = record {
    counted = v.books.counted;
    within = v.books.within;
    exclusive = v.books.exclusive;
    scheduled = v.books.scheduled;
  };
  keys = v.keys;
  waiters = v.waiters;
  queue = v.queue;
}

holds_barrier_lem :
    (e : Entry) (barrier : ℕ)
    → holds_barrier e barrier ≡ true
    → ((k : ℕ) × (e.active_barrier ≡ some k)) × (is_idle e ≡ false)
unfolding holds_barrier is_idle has_active
holds_barrier_lem e barrier h = elim (Option-cases e.active_barrier) [
  | inl none_left ↦ ground arith
  | inr (k, held) ↦ ((k, held), ground arith)
]

queue_busy : (e : Entry) → is_empty e.queue ≡ false → is_idle e ≡ false
unfolding is_idle
queue_busy e h = ground arith

remove_barrier-is_empty :
    (barrier : ℕ) (queue : List Work) {left : List Work}
    → remove_barrier barrier queue ≡ some left
    → is_empty queue ≡ false
unfolding remove_barrier
remove_barrier-is_empty barrier [] h = ground arith
remove_barrier-is_empty barrier (w ∷ rest) h = refl

unready_busy : (queue : List Work) → all_ready queue ≡ false → is_empty queue ≡ false
unfolding all_ready
unready_busy [] h = ground arith
unready_busy (w ∷ rest) h = refl

-- An entry that has a batch that is not ready stands where work is taken.
unready_taken :
    (c : Coalescer) (e : Entry)
    → fits c.state e ≡ true
    → all_ready e.queue ≡ false
    → takes_work c ≡ true
unfolding fits is_idle
unready_taken c e fit unready = ground (arith, unready_busy e.queue)

module _ (keys waiting : ℕ) (c : Coalescer) (key : String) (n : ℕ)
    (v : IsConsistent true keys waiting c) where
  pub release_barrier-IsConsistent :
      (barrier now : ℕ) → IsConsistent true keys waiting (release_barrier c key n barrier now)
  unfolding release_barrier
  release_barrier-IsConsistent barrier now = elim (Option-cases (entry_at c key n)) [
    | inl gone ↦ rw (release_barrier, gone) v
    | inr (e, here) ↦ elim (Bool-cases (holds_barrier e barrier)) [
      | inr other ↦ rw (release_barrier, here, other) v
      | inl held ↦
          let found = entry_at-lookup c key n here in
          let s = found-IsSound keys waiting c key found v in
          let ((k, active), busy) = holds_barrier_lem e barrier held in
          let ended : Entry = record e { active_barrier = none } in
          rw (release_barrier, here, held)
            (move_on-IsConsistent keys waiting c key found v busy ended _ (λ h. h) refl
              (touch-Releases c.config c.global ended _ now (
                release_waiter_locked-Releases c.config c.global ended
                  (end_barrier-IsCounted c.config e active s.books)
                  (found_enough keys waiting c key found v))))
    ]
  ]

  pub cancel_barrier-IsConsistent :
      (barrier now : ℕ) → IsConsistent true keys waiting (cancel_barrier c key n barrier now).0
  unfolding cancel_barrier
  cancel_barrier-IsConsistent barrier now = elim (Option-cases (entry_at c key n)) [
    | inl gone ↦ rw (cancel_barrier, gone) v
    | inr (e, here) ↦ elim (Bool-cases (holds_barrier e barrier)) [
      | inl held ↦ rw (cancel_barrier, here, held) v
      | inr other ↦ elim (Option-cases (remove_barrier barrier e.queue)) [
        | inl missing ↦ rw (cancel_barrier, here, other, missing) v
        | inr (queue, left) ↦
            let found = entry_at-lookup c key n here in
            let s = found-IsSound keys waiting c key found v in
            let follows = remove_barrier-Follows c.config barrier e.queue left in
            let cut : Entry = record e { queue = queue } in
            let r = touch-Releases c.config c.global cut _ now (
              release_waiter_locked-Releases c.config c.global cut
                (Follows-IsCounted c.config e follows s.books)
                (found_enough keys waiting c key found v)) in
            rw (cancel_barrier, here, other, left)
              (complete_drain-IsConsistent keys waiting _ (
                put_busy-IsConsistent keys waiting c key found v _ _
                  (queue_busy e (remove_barrier-is_empty barrier e.queue left))
                  (λ h. rw r.queue (follows.forced h)) r.books r.keys r.waiters))
      ]
    ]
  ]

  pub mark_batch_ready-IsConsistent :
      (batch generation : ℕ)
      → IsConsistent true keys waiting (mark_batch_ready c key n batch generation)
  unfolding mark_batch_ready put_entry
  mark_batch_ready-IsConsistent batch generation = elim (Option-cases (entry_at c key n)) [
    | inl gone ↦ rw (mark_batch_ready, gone) v
    | inr (e, here) ↦ elim (Option-cases (mark_ready batch generation e.queue)) [
      | inl missing ↦ rw (mark_batch_ready, here, missing) v
      | inr (queue, left) ↦ elim (Bool-cases (is_closed c.state)) [
        | inl over ↦ rw (mark_batch_ready, here, left, over) v
        | inr live ↦
            let found = entry_at-lookup c key n here in
            let s = found-IsSound keys waiting c key found v in
            let (follows, unready, same) =
              mark_ready-Follows c.config batch generation e.queue left in
            let changed : Entry = record e { queue = queue } in
            let taken = unready_taken c e (found_fits keys waiting c key found v) unready in
            rw (mark_batch_ready, here, left, live)
              (IsConsistent-taken keys waiting (put_entry c key c.global changed) false c.next_id
                c.released taken
                (put_busy-IsConsistent keys waiting c key found v c.global changed
                  (queue_busy e (unready_busy e.queue unready)) follows.forced
                  (Follows-IsCounted c.config e follows s.books) refl refl))
      ]
    ]
  ]
