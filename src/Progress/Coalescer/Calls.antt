-- ===== src/Progress/Coalescer/Calls.antt =====
-- legacy_progress.go: the calls of progressCoalescer. Each holds the lock throughout, so it is one
-- step; a batch that is `active_batch` is being dispatched, and `finish_dispatch` is what follows
-- its upstream's answer. `outcomes` are the results that waiters have not received, `released`
-- the buffered requests that were released and `finished` the drain cycles whose channel is closed.
use emby_panel.Prelude.{
  ℕ, suc, ◌+◌, Bool, true, false, not, ◌&&◌, ◌||◌, ◌==◌, leb, ltb, Option, none, some, List, [],
  ◌∷◌, ◌++◌, String, if◌then◌else◌,
}
use emby_panel.Prelude.Maps.{Map, lookup, insert, delete, size}
use emby_panel.Progress.Global.{ProgressGlobalRuntime, reserve_key, release_key}
use emby_panel.Progress.Coalescer.Entry.{
  Config, barrier_work, Entry, is_some, is_idle, reserve_waiter_locked, add_update, joined_request,
  force_work, advance_entry, mark_ready,
}

pub data State : Type 0 where
  open_state quiescing draining drained closed : State

pub record Outcome : Type 0 where
  pub response : ℕ
  pub error : Option ℕ

-- `err` are the errors that were joined, the last first.
pub record DrainCycle : Type 0 where
  pub id : ℕ
  pub err : List ℕ

pub record Coalescer : Type 0 where
  pub global : ProgressGlobalRuntime
  pub config : Config
  pub entries : Map Entry
  pub state : State
  pub drain : Option DrainCycle
  pub admissions : ℕ
  pub next_id : ℕ
  pub outcomes : List (ℕ × Outcome)
  pub released : List ℕ
  pub finished : List DrainCycle

unfoldable pub new_progress_coalescer : ProgressGlobalRuntime → Config → Coalescer
new_progress_coalescer global config = record {
  global = global;
  config = config;
  entries = [];
  state = open_state;
  drain = none;
  admissions = 0;
  next_id = 0;
  outcomes = [];
  released = [];
  finished = [];
}

abbrev pub is_open : State → Bool
is_open open_state = true
is_open s = false

abbrev pub is_quiescing : State → Bool
is_quiescing quiescing = true
is_quiescing s = false

abbrev pub is_draining : State → Bool
is_draining draining = true
is_draining s = false

abbrev pub is_closed : State → Bool
is_closed closed = true
is_closed s = false

-- The entries that are idle and were last used `idle_expiry` ago go, each with its key.
unfoldable pub drop_idle :
    ℕ → ℕ → Map Entry → ProgressGlobalRuntime → ProgressGlobalRuntime × Map Entry
unfolding is_idle
drop_idle now idle_expiry [] g = (g, [])
drop_idle now idle_expiry ((key, e) ∷ rest) g =
    let stays =
      not (is_idle e) || not (e.waiters == 0) || ltb now (e.last_activity + idle_expiry) in
    let (h, kept) = drop_idle now idle_expiry rest g in
    if stays then (h, (key, e) ∷ kept) else (release_key h, kept)

unfoldable pub cleanup_idle : ℕ → Coalescer → Coalescer
unfolding drop_idle
cleanup_idle now c =
    if c.config.idle_expiry == 0
    then c
    else (let (g, kept) = drop_idle now c.config.idle_expiry c.entries c.global in
        record c { global = g; entries = kept })

-- The flag says whether the entry is new.
unfoldable pub get_or_create_entry : Coalescer → String → ℕ → Option (Coalescer × Entry × Bool)
get_or_create_entry c key now = elim (lookup key c.entries) [
  | some e ↦ some (c, e, false)
  | none ↦
      let (g, got) = reserve_key c.global in
      if c.config.max_site_keys == 0 || leb c.config.max_site_keys (size c.entries)
      then none
      else (if got
          then (let e : Entry = record {
            id = c.next_id;
            queue = [];
            active_batch = none;
            active_barrier = none;
            waiters = 0;
            last_activity = now;
          } in
              some (
                record c { global = g; entries = insert key e c.entries; next_id = suc c.next_id },
                e,
                true,
              ))
          else none)
]

-- The entry of a key, when it is still the one that a caller holds.
unfoldable pub entry_at : Coalescer → String → ℕ → Option Entry
entry_at c key n = elim (lookup key c.entries) [
  | none ↦ none
  | some e ↦ if e.id == n then some e else none
]

unfoldable pub release_empty_new_entry : Coalescer → String → Entry → Bool → Coalescer
unfolding is_idle entry_at
release_empty_new_entry c key e created =
    if created && is_idle e && e.waiters == 0 && is_some (entry_at c key e.id)
    then record c { global = release_key c.global; entries = delete key c.entries }
    else c

-- The first part of enqueueUpdate and of enqueueBarrier: the entry of a key with one more waiter,
-- and the limits with it; none when the call gives up. The entry is not stored yet.
unfoldable pub admit_waiter :
    Coalescer → String → ℕ → Coalescer × Option (ProgressGlobalRuntime × Entry)
unfolding get_or_create_entry reserve_waiter_locked release_empty_new_entry
admit_waiter c key now =
    if is_open c.state || is_quiescing c.state
    then (elim (get_or_create_entry c key now) [
      | none ↦ (c, none)
      | some (d, e, created) ↦
          let (g, f, got) = reserve_waiter_locked d.config d.global e in
          if got then (d, some (g, f)) else (release_empty_new_entry d key e created, none)
    ])
    else (c, none)

-- What becomes of the entry of a key once it is changed: it is moved on.
unfoldable pub put_entry : Coalescer → String → ProgressGlobalRuntime → Entry → Coalescer
unfolding advance_entry
put_entry c key g e = record c { global = g; entries = insert key (advance_entry e) c.entries }

-- A caller gets the ids of its entry and of its waiter or barrier.
unfoldable pub enqueue_update : Coalescer → String → ℕ → ℕ → Coalescer × Option (ℕ × ℕ)
unfolding admit_waiter put_entry add_update joined_request
enqueue_update c key request now =
    let (d, admitted) = admit_waiter c key now in
    elim admitted [
      | none ↦ (d, none)
      | some (g, e) ↦
          let n = d.next_id in
          let queue = add_update d.config now n request e.queue in
          (
            record (put_entry d key g (record e { queue = queue; last_activity = now })) {
              next_id = suc n;
              released = joined_request e.queue ++ d.released;
            },
            some (e.id, n),
          )
    ]

unfoldable pub enqueue_barrier : Coalescer → String → ℕ → Coalescer × Option (ℕ × ℕ)
unfolding admit_waiter put_entry force_work
enqueue_barrier c key now =
    let (d, admitted) = admit_waiter c key now in
    elim admitted [
      | none ↦ (d, none)
      | some (g, e) ↦
          let n = d.next_id in
          let queue = force_work e.queue ++ (barrier_work n ∷ []) in
          (
            record (put_entry d key g (record e { queue = queue; last_activity = now })) {
              next_id = suc n;
            },
            some (e.id, n),
          )
    ]

-- The timer of a batch of the entry `n` fires.
unfoldable pub mark_batch_ready : Coalescer → String → ℕ → ℕ → ℕ → Coalescer
unfolding entry_at put_entry mark_ready
mark_batch_ready c key n batch generation = elim (entry_at c key n) [
  | none ↦ c
  | some e ↦ elim (mark_ready batch generation e.queue) [
    | none ↦ c
    | some queue ↦
        if is_closed c.state then c else put_entry c key c.global (record e { queue = queue })
  ]
]
