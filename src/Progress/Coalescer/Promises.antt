-- ===== src/Progress/Coalescer/Promises.antt =====
-- What a coalescer promises, whatever calls are made on it and in whatever order.
mod Examples
use emby_panel.Prelude.{
  ℕ, ◌+◌, ◌≤◌, ◌<◌, ◌≡◌, refl, sym, Bool, true, false, not, ◌&&◌, ◌||◌, min, Option, none, some,
  List, [], ◌∷◌, arith, String, ◌⊎◌, inl, inr, length, Bool-cases, Option-cases,
}
use emby_panel.Prelude.Maps.{Map, total, size, lookup, AllValues, lookup-AllValues, map-AllValues}
use emby_panel.Progress.Global.{ProgressGlobalRuntime}
use emby_panel.Progress.Coalescer.Entry.{
  Config, Batch, Work, batch_work, barrier_work, Entry, is_some, is_idle, has_active,
}
use emby_panel.Progress.Coalescer.Calls.{
  Coalescer, draining, is_draining, is_quiescing, is_closed, drained, State,
}
use emby_panel.Progress.Coalescer.Completion.{close_coalescer, all_idle}
use emby_panel.Progress.Coalescer.Queue.{
  queued, is_scheduled, will_be_ready, all_ready, waits_for_timer,
}
use emby_panel.Progress.Coalescer.Soundness.{IsSound, waiting_batch, waiting_barrier}
use emby_panel.Progress.Coalescer.Consistency.{IsConsistent, IsFit, fits, drain_fits}
use emby_panel.Progress.Coalescer.Draining.{close_coalescer-IsConsistent}
use emby_panel.Progress.Coalescer.History.{
  World, Reach, new_world, new_world-IsConsistent, waiters_of,
}

-- The counter of an entry is the number of the waiters of its batches and of its barriers.
pub IsWithin : Config → Entry → Type 0
IsWithin config e =
    (e.waiters ≡ waiting_batch e.active_batch + waiting_barrier e.active_barrier + queued e.queue)
    × (e.waiters ≤ config.max_waiters_per_key)

IsFit-IsWithin : (c : Coalescer) (e : Entry) → IsFit c e → IsWithin c.config e
unfolding IsWithin
IsFit-IsWithin c e (s, f) = (omega (arith, s.books.counted), s.books.within)

module _ (global : ProgressGlobalRuntime) (config : Config) {w : World} where
  -- In every history of a coalescer that starts empty, the shared limits count exactly its keys
  -- and its entries' waiters besides what other sites hold and what closing left counted; it has
  -- at most `max_site_keys` keys; and each entry counts exactly the waiters and barriers that are
  -- queued or under way in it, of which there are at most `max_waiters_per_key`.
  pub coalescer_counts_kept :
      Reach (new_world global config) w
      → (w.coalescer.global.active_keys ≡ size w.coalescer.entries + w.other_keys)
        × (w.coalescer.global.waiters ≡ waiters_of w.coalescer + w.other_waiters)
        × (size w.coalescer.entries ≤ w.coalescer.config.max_site_keys)
        × AllValues (IsWithin w.coalescer.config) w.coalescer.entries
  coalescer_counts_kept r =
      let v = new_world-IsConsistent global config r in
      let c = w.coalescer in
      (
        v.keys_counted,
        v.waiters_counted,
        v.key_limit,
        map-AllValues (IsFit c) (IsWithin c.config) c.entries (IsFit-IsWithin c) v.entries_fit,
      )

  reached-IsSound :
      (key : String) {e : Entry}
      → Reach (new_world global config) w
      → lookup key w.coalescer.entries ≡ some e
      → IsSound w.coalescer.config e
  reached-IsSound key r found =
      (lookup-AllValues (IsFit w.coalescer) key w.coalescer.entries found
        (new_world-IsConsistent global config r).entries_fit).0

-- The work waits for the timer of its batch, alone, and the timer is set for the debounce window
-- after the last update, or the longest delay after the first if that is sooner.
pub WaitsAlone : Config → Work → List Work → Type 0
WaitsAlone config u rest =
    (b : Batch) × (u ≡ batch_work b)
    × (rest ≡ [])
    × (b.timer
        ≡ some
            (min (b.last_arrival + config.debounce) (b.first_arrival + config.max_dispatch_delay)))

scheduled-WaitsAlone :
    (config : Config) (u : Work) (rest : List Work)
    → is_scheduled config (u ∷ rest) ≡ true
    → waits_for_timer (u ∷ rest) ≡ true
    → WaitsAlone config u rest
unfolding is_scheduled will_be_ready WaitsAlone
scheduled-WaitsAlone config (barrier_work k) rest s h = ground arith
scheduled-WaitsAlone config (batch_work b) [] s h = elim (Option-cases b.timer) [
  | inl no_timer ↦ ground arith
  | inr (deadline, e) ↦ (b, refl, refl, ground arith)
]
scheduled-WaitsAlone config (batch_work b) (v ∷ rest) s h = ground arith

module _ (global : ProgressGlobalRuntime) (config : Config) {w : World} where
  -- In every history of a coalescer that starts empty: a queue that is not empty has a batch or a
  -- barrier of its key under way, never both, or else all that it holds is one batch whose timer
  -- is set for the debounce window after its last update, or for the longest delay after its
  -- first update if that is sooner.
  pub queued_work_moves :
      (key : String) (e : Entry) (u : Work) (rest : List Work)
      → Reach (new_world global config) w
      → lookup key w.coalescer.entries ≡ some e
      → e.queue ≡ u ∷ rest
      → (is_some e.active_batch && is_some e.active_barrier ≡ false)
        × ((has_active e ≡ true) ⊎ WaitsAlone w.coalescer.config u rest)
  queued_work_moves key e u rest r found h =
      let s = reached-IsSound global config key r found in
      (
        s.books.exclusive,
        elim (Bool-cases (has_active e)) [
          | inl busy ↦ inl busy
          | inr idle ↦ inr (
              scheduled-WaitsAlone w.coalescer.config u rest (rw h at s.books.scheduled)
                (rw (idle, h) at s.moving))
        ],
      )

-- Some entry has a batch or a barrier under way.
unfoldable pub any_active : Map Entry → Bool
any_active [] = false
any_active ((key, e) ∷ rest) = has_active e || any_active rest

draining-any_active :
    (config : Config) (m : Map Entry)
    → AllValues (λ e. IsSound config e × (fits draining e ≡ true)) m
    → all_idle m ≡ false
    → any_active m ≡ true
unfolding all_idle any_active fits is_idle all_ready
draining-any_active config [] fit h = ground arith
draining-any_active config ((key, e) ∷ rest) ((s, f), fit) h =
    ground (arith, s.moving, draining-any_active config rest fit)

is_draining_lem : (s : State) → is_draining s ≡ true → s ≡ draining
is_draining_lem s h = ground arith

close_coalescer-entries :
    (c : Coalescer) → is_closed c.state ≡ false → (close_coalescer c).entries ≡ []
unfolding close_coalescer
close_coalescer-entries c live = rw live refl

drained_waiters :
    (config : Config) (m : Map Entry)
    → AllValues (λ e. IsSound config e × (fits drained e ≡ true)) m
    → total (λ e. e.waiters) m ≡ 0
unfolding fits is_idle has_active queued
drained_waiters config [] fit = refl
drained_waiters config ((key, e) ∷ rest) ((s, f), fit) =
    ground (arith, s.books.counted, drained_waiters config rest fit)

module _ (global : ProgressGlobalRuntime) (config : Config) {w : World} where
  pub draining_work :
      Reach (new_world global config) w
      → is_draining w.coalescer.state ≡ true
      → (w.coalescer.admissions ≡ 0)
        × AllValues (λ e. all_ready e.queue ≡ true) w.coalescer.entries
        × (any_active w.coalescer.entries ≡ true)
  unfolding drain_fits fits
  draining_work r drains =
      let v = new_world-IsConsistent global config r in
      let c = w.coalescer in
      let e = is_draining_lem c.state drains in
      let fit : AllValues (λ e. IsSound c.config e × (fits draining e ≡ true)) c.entries =
        rw e at v.entries_fit in
      (
        ground (arith, v.drain_ends),
        map-AllValues (λ e. IsSound c.config e × (fits draining e ≡ true))
            (λ e. all_ready e.queue ≡ true) c.entries (λ e p. p.1) fit,
        draining-any_active c.config c.entries fit (ground (arith, v.drain_ends)),
      )

  -- In every history of a coalescer that starts empty, a drain that is not over never waits in
  -- vain: a request that was admitted before is still to end, or no such request is left, every
  -- queued batch is ready, and a batch or a barrier is under way.
  pub drain_never_stuck :
      Reach (new_world global config) w
      → (is_quiescing w.coalescer.state || is_draining w.coalescer.state) ≡ true
      → (0 < w.coalescer.admissions)
        ⊎ ((w.coalescer.admissions ≡ 0)
            × AllValues (λ e. all_ready e.queue ≡ true) w.coalescer.entries
            × (any_active w.coalescer.entries ≡ true))
  unfolding drain_fits
  drain_never_stuck r h =
      let v = new_world-IsConsistent global config r in
      elim (Bool-cases (is_draining w.coalescer.state)) [
        | inr other ↦ inl (ground (arith, v.drain_ends))
        | inl drains ↦ inr (draining_work r drains)
      ]

  -- In every history of a coalescer that starts empty, once it is drained closing it leaves in
  -- the shared limits only the keys and waiters that they count for others.
  pub drained_close_releases :
      Reach (new_world global config) w
      → w.coalescer.state ≡ drained
      → ((close_coalescer w.coalescer).global.active_keys ≡ w.other_keys)
        × ((close_coalescer w.coalescer).global.waiters ≡ w.other_waiters)
  drained_close_releases r h =
      let v = new_world-IsConsistent global config r in
      let c = w.coalescer in
      let k = close_coalescer-IsConsistent w.other_keys w.other_waiters c v in
      let gone = drained_waiters c.config c.entries (rw h at v.entries_fit) in
      let empty = close_coalescer-entries c (rw h refl) in
      (
        omega (arith, rw empty at k.keys_counted),
        omega (arith, gone, rw empty at k.waiters_counted),
      )
