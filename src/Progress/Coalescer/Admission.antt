-- ===== src/Progress/Coalescer/Admission.antt =====
-- The calls that take new work keep a coalescer consistent.
use emby_panel.Prelude.{
  ℕ, suc, ◌+◌, ◌≡◌, refl, Bool, true, false, ◌&&◌, ◌||◌, leb, ◌==◌, Option, none, some, [], ◌∷◌,
  ◌++◌, arith, Bool-cases, Option-cases, inl, inr, String, ◌<◌,
}
use emby_panel.Prelude.Maps.{
  Map, lookup, size, total-insert_new, total-delete, lookup-AllValues, insert-AllValues,
  insert-HasDistinctKeys, delete-HasDistinctKeys, delete-AllValues, lookup-insert_self,
}
use emby_panel.Progress.Global.{ProgressGlobalRuntime, reserve_waiter, reserve_key, release_key}
use emby_panel.Progress.Coalescer.Entry.{
  Config, barrier_work, Entry, is_some, has_active, is_idle, reserve_waiter_locked, add_update,
  force_work, advance_entry,
}
use emby_panel.Progress.Coalescer.Calls.{
  Coalescer, put_entry, entry_at, get_or_create_entry, release_empty_new_entry, admit_waiter,
  enqueue_update, enqueue_barrier,
}
use emby_panel.Progress.Coalescer.Queue.{is_scheduled, queued}
use emby_panel.Progress.Coalescer.Soundness.{
  IsCounted, IsSound, add_update-IsCounted, append_barrier-IsCounted,
}
use emby_panel.Progress.Coalescer.Consistency.{
  IsConsistent, IsConsistent-taken, takes_work, IsFit, fits, drain_fits, put_entry-IsConsistent,
}

-- When work is taken, a drain does not look at the entries, nor does an entry at the drain.
drain_fits-settled :
    (c : Coalescer) (settled : Bool)
    → takes_work c ≡ true
    → drain_fits settled c ≡ drain_fits true c
unfolding drain_fits
drain_fits-settled c settled h = ground arith

drain_fits-taken :
    (c : Coalescer) (g : ProgressGlobalRuntime) (m : Map Entry) (n : ℕ)
    → takes_work c ≡ true
    → drain_fits true c ≡ true
    → drain_fits true (record c { global = g; entries = m; next_id = n }) ≡ true
unfolding drain_fits
drain_fits-taken c g m n taken h = ground arith

fits_when_taken : (c : Coalescer) (e : Entry) → takes_work c ≡ true → fits c.state e ≡ true
unfolding fits
fits_when_taken c e h = ground arith

-- A waiter is reserved: the counts of the entry and of all sites are one more.
record Reserves (config : Config) (g h : ProgressGlobalRuntime) (e f : Entry) : Type 0 where
  books : IsCounted config 1 f
  keys : h.active_keys ≡ g.active_keys
  waiters : h.waiters ≡ suc g.waiters
  entry : f.waiters ≡ suc e.waiters

reserve_waiter_locked-Reserves :
    (config : Config) (g : ProgressGlobalRuntime) (e : Entry)
    → IsCounted config 0 e
    → (reserve_waiter_locked config g e).2 ≡ true
    → Reserves config g (reserve_waiter_locked config g e).0 e (reserve_waiter_locked config g e).1
unfolding reserve_waiter_locked reserve_waiter
reserve_waiter_locked-Reserves config g e v h =
    ground (arith, v.counted, v.within, v.exclusive, v.scheduled)

-- An entry that is found or made.
record Holds (keys waiting : ℕ) (key : String) (d : Coalescer) (e : Entry) : Type 0 where
  consistent : IsConsistent true keys waiting d
  found : lookup key d.entries ≡ some e
  taken : takes_work d ≡ true

IsHeld : ℕ → ℕ → String → Option (Coalescer × Entry × Bool) → Type 0
IsHeld keys waiting key none = Unit
IsHeld keys waiting key (some (d, e, created)) = Holds keys waiting key d e

reserve_key_lem :
    (g : ProgressGlobalRuntime)
    → (reserve_key g).1 ≡ true
    → ((reserve_key g).0.active_keys ≡ suc g.active_keys) × ((reserve_key g).0.waiters ≡ g.waiters)
unfolding reserve_key
reserve_key_lem g h = ground arith

new_entry-IsSound :
    (config : Config) (n now : ℕ)
    → IsSound config (record {
      id = n;
      queue = [];
      active_batch = none;
      active_barrier = none;
      waiters = 0;
      last_activity = now;
    })
unfolding queued is_scheduled has_active
new_entry-IsSound config n now = record {
  books = record { counted = refl; within = omega arith; exclusive = refl; scheduled = refl };
  moving = refl;
}

module _ (keys waiting : ℕ) (c : Coalescer) (key : String) (now : ℕ) (taken : takes_work c ≡ true)
    (v : IsConsistent true keys waiting c) where
  new_entry-Holds :
      lookup key c.entries ≡ none → IsHeld keys waiting key (get_or_create_entry c key now)
  unfolding get_or_create_entry IsHeld
  new_entry-Holds new =
      let most = c.config.max_site_keys in
      elim (Bool-cases (most == 0 || leb most (size c.entries))) [
        | inl full ↦ rw (IsHeld, get_or_create_entry, new, full) tt
        | inr site ↦ elim (Bool-cases (reserve_key c.global).1) [
          | inr none_left ↦ rw (IsHeld, get_or_create_entry, new, site, none_left) tt
          | inl got ↦
              let e : Entry = record {
                id = c.next_id;
                queue = [];
                active_batch = none;
                active_barrier = none;
                waiters = 0;
                last_activity = now;
              } in
              let (more, same) = reserve_key_lem c.global got in
              rw (IsHeld, get_or_create_entry, new, site, got)
                (record {
                  consistent = record {
                    keys_counted = omega (
                      arith,
                      more,
                      v.keys_counted,
                      total-insert_new (λ x. 1) key e c.entries new,
                    );
                    waiters_counted = omega (
                      arith,
                      same,
                      v.waiters_counted,
                      total-insert_new (λ x. x.waiters) key e c.entries new,
                    );
                    distinct = insert-HasDistinctKeys key e c.entries v.distinct;
                    key_limit = ground (arith, total-insert_new (λ x. 1) key e c.entries new);
                    entries_fit =
                        insert-AllValues (IsFit c) key c.entries
                          (new_entry-IsSound c.config c.next_id now, fits_when_taken c e taken)
                          v.entries_fit;
                    drain_ends = drain_fits-taken c _ _ _ taken v.drain_ends;
                  };
                  found = lookup-insert_self key e c.entries;
                  taken = taken;
                })
        ]
      ]

  get_or_create_entry-IsHeld : IsHeld keys waiting key (get_or_create_entry c key now)
  unfolding get_or_create_entry IsHeld
  get_or_create_entry-IsHeld = elim (Option-cases (lookup key c.entries)) [
    | inr (old, found) ↦
        rw (IsHeld, get_or_create_entry, found)
          (record { consistent = v; found = found; taken = taken })
    | inl new ↦ new_entry-Holds new
  ]

release_key_lem :
    (g : ProgressGlobalRuntime)
    → 0 < g.active_keys
    → ((release_key g).active_keys + 1 ≡ g.active_keys) × ((release_key g).waiters ≡ g.waiters)
unfolding release_key
release_key_lem g h = ground arith

release_empty_new_entry-IsConsistent :
    (keys waiting : ℕ) (key : String) (c : Coalescer) (e : Entry) (created : Bool)
    → Holds keys waiting key c e
    → IsConsistent true keys waiting (release_empty_new_entry c key e created)
unfolding release_empty_new_entry
release_empty_new_entry-IsConsistent keys waiting key c e created h =
    let v = h.consistent in
    let gone = total-delete (λ x. 1) key e c.entries h.found in
    let (less, same) = release_key_lem c.global (omega (arith, v.keys_counted, gone)) in
    elim (Bool-cases (created && is_idle e && e.waiters == 0 && is_some (entry_at c key e.id))) [
      | inr kept ↦ rw kept v
      | inl empty ↦ rw empty (record {
        keys_counted = omega (arith, v.keys_counted, less, gone);
        waiters_counted =
            ground (
              arith,
              v.waiters_counted,
              same,
              total-delete (λ x. x.waiters) key e c.entries h.found,
            );
        distinct = delete-HasDistinctKeys key c.entries v.distinct;
        key_limit = omega (arith, v.key_limit, gone);
        entries_fit = delete-AllValues (IsFit c) key c.entries v.entries_fit;
        drain_ends = drain_fits-taken c _ _ c.next_id h.taken v.drain_ends;
      })
    ]

-- What admit_waiter gives: an entry with a waiter more, or a coalescer that is consistent.
abbrev IsAdmitted : ℕ → ℕ → String → Coalescer → Option (ProgressGlobalRuntime × Entry) → Type 0
IsAdmitted keys waiting key d none = IsConsistent true keys waiting d
IsAdmitted keys waiting key d (some (g, f)) =
    (e : Entry) × Holds keys waiting key d e × Reserves d.config d.global g e f

module _ (keys waiting : ℕ) (c : Coalescer) (key : String) (now : ℕ)
    (v : IsConsistent true keys waiting c) where
  admit_waiter-IsAdmitted :
      IsAdmitted keys waiting key (admit_waiter c key now).0 (admit_waiter c key now).1
  unfolding admit_waiter IsHeld
  admit_waiter-IsAdmitted = elim (Bool-cases (takes_work c)) [
    | inr refused ↦ rw refused v
    | inl taken ↦
        let held = get_or_create_entry-IsHeld keys waiting c key now taken v in
        elim (Option-cases (get_or_create_entry c key now)) [
          | inl full ↦ rw (taken, full) v
          | inr ((d, e, created), made) ↦
              let h = rw (IsHeld, made) at held in
              let reserved = reserve_waiter_locked d.config d.global e in
              elim (Bool-cases reserved.2) [
                | inr full ↦
                    rw (taken, made, full)
                      (release_empty_new_entry-IsConsistent keys waiting key d e created h)
                | inl got ↦
                    rw (taken, made, got)
                      (
                        e,
                        h,
                        reserve_waiter_locked-Reserves d.config d.global e
                            (lookup-AllValues (IsFit d) key d.entries h.found
                              h.consistent.entries_fit).0.books
                            got,
                      )
              ]
        ]
  ]

  pub enqueue_update-IsConsistent :
      (request : ℕ) → IsConsistent true keys waiting (enqueue_update c key request now).0
  unfolding enqueue_update put_entry
  enqueue_update-IsConsistent request =
      let admitted = admit_waiter-IsAdmitted in
      let d = (admit_waiter c key now).0 in
      elim (Option-cases (admit_waiter c key now).1) [
        | inl refused ↦ rw (enqueue_update, refused) (rw refused at admitted)
        | inr ((g, f), taken) ↦
            let (e, h, r) = rw taken at admitted in
            let changed : Entry = record f {
              queue = add_update d.config now d.next_id request f.queue;
              last_activity = now;
            } in
            rw (enqueue_update, taken)
              (IsConsistent-taken keys waiting (put_entry d key g changed) false _ _ h.taken (
                put_entry-IsConsistent keys waiting d true key changed g h.found h.consistent
                  (add_update-IsCounted d.config f now d.next_id request r.books)
                  (fits_when_taken d (advance_entry changed) h.taken) r.keys
                  (omega (arith, r.waiters, r.entry))))
      ]

  pub enqueue_barrier-IsConsistent : IsConsistent true keys waiting (enqueue_barrier c key now).0
  unfolding enqueue_barrier put_entry
  enqueue_barrier-IsConsistent =
      let admitted = admit_waiter-IsAdmitted in
      let d = (admit_waiter c key now).0 in
      elim (Option-cases (admit_waiter c key now).1) [
        | inl refused ↦ rw (enqueue_barrier, refused) (rw refused at admitted)
        | inr ((g, f), taken) ↦
            let (e, h, r) = rw taken at admitted in
            let changed : Entry = record f {
              queue = force_work f.queue ++ (barrier_work d.next_id ∷ []);
              last_activity = now;
            } in
            rw (enqueue_barrier, taken)
              (IsConsistent-taken keys waiting (put_entry d key g changed) false _ d.released
                h.taken
                (put_entry-IsConsistent keys waiting d true key changed g h.found h.consistent
                  (append_barrier-IsCounted d.config f now d.next_id r.books)
                  (fits_when_taken d (advance_entry changed) h.taken) r.keys
                  (omega (arith, r.waiters, r.entry))))
      ]
