-- ===== src/Progress/Coalescer/Answers.antt =====
-- The answer to a batch, and the end of a waiter's own request, keep a coalescer consistent.
use emby_panel.Prelude.{
  ℕ, ◌-◌, ◌≡◌, refl, true, false, ◌==◌, Option, none, some, List, [], ◌∷◌, ◌++◌, map, arith,
  Bool-cases, Option-cases, inl, inr, String,
}
use emby_panel.Prelude.Maps.{
  Map, lookup, insert, total-insert_old, insert-AllValues, insert-HasDistinctKeys,
}
use emby_panel.Progress.Global.{ProgressGlobalRuntime}
use emby_panel.Progress.Coalescer.Entry.{Config, Batch, Entry, has_active, is_idle}
use emby_panel.Progress.Coalescer.Leaving.{forget_waiter}
use emby_panel.Progress.Coalescer.Calls.{Coalescer, State, Outcome, entry_at}
use emby_panel.Progress.Coalescer.Completion.{
  all_idle, join_error, finish_dispatch, resolve_canceled_waiter, receive,
}
use emby_panel.Progress.Coalescer.Soundness.{
  IsSound, end_batch-IsCounted, forget_waiter-Loses, Loses,
}
use emby_panel.Progress.Coalescer.Consistency.{IsConsistent, IsFit, fits, drain_fits}
use emby_panel.Progress.Coalescer.Departure.{
  release_waiter_locked_lem, release_each-Releases, entry_at-lookup, found-IsSound, found_fits,
  found_enough, move_on-IsConsistent,
}

module _ (keys waiting : ℕ) (c : Coalescer) (v : IsConsistent true keys waiting c) where
  -- Outcomes and released requests do not matter to consistency, nor do errors of a drain.
  answered-IsConsistent :
      (error : Option ℕ) (outcomes : List (ℕ × Outcome)) (released : List ℕ)
      → IsConsistent true keys waiting
          (record c { drain = join_error c error; outcomes = outcomes; released = released })
  unfolding join_error drain_fits
  answered-IsConsistent error outcomes released = record {
    keys_counted = v.keys_counted;
    waiters_counted = v.waiters_counted;
    distinct = v.distinct;
    key_limit = v.key_limit;
    entries_fit = v.entries_fit;
    drain_ends = ground (arith, v.drain_ends);
  }

  released-IsConsistent :
      (outcomes : List (ℕ × Outcome)) (released : List ℕ)
      → IsConsistent true keys waiting (record c { outcomes = outcomes; released = released })
  unfolding drain_fits
  released-IsConsistent outcomes released = record {
    keys_counted = v.keys_counted;
    waiters_counted = v.waiters_counted;
    distinct = v.distinct;
    key_limit = v.key_limit;
    entries_fit = v.entries_fit;
    drain_ends = v.drain_ends;
  }

active_busy : (e : Entry) {b : Batch} → e.active_batch ≡ some b → is_idle e ≡ false
unfolding is_idle has_active
active_busy e h = ground arith

pub finish_dispatch-IsConsistent :
    (keys waiting : ℕ) (c : Coalescer) (key : String) (n : ℕ)
    → IsConsistent true keys waiting c
    → (b : Batch) (outcome : Outcome) (now : ℕ)
    → IsConsistent true keys waiting (finish_dispatch c key n b outcome now)
unfolding finish_dispatch
finish_dispatch-IsConsistent keys waiting c key n v b outcome now =
    let plain = released-IsConsistent keys waiting c v c.outcomes (b.request ∷ c.released) in
    elim (Option-cases (entry_at c key n)) [
      | inl gone ↦ rw (finish_dispatch, gone) plain
      | inr (e, here) ↦ elim (Option-cases e.active_batch) [
        | inl idle ↦ rw (finish_dispatch, here, idle) plain
        | inr (a, active) ↦ elim (Bool-cases (a.id == b.id)) [
          | inr other ↦ rw (finish_dispatch, here, active, other) plain
          | inl same ↦
              let found = entry_at-lookup c key n here in
              let s = found-IsSound keys waiting c key found v in
              let ended : Entry = record e { active_batch = none; last_activity = now } in
              let outcomes = map (λ w. (w, outcome)) a.waiters ++ c.outcomes in
              let requests = b.request ∷ c.released in
              let d : Coalescer = record c {
                drain = join_error c outcome.error;
                outcomes = outcomes;
                released = requests;
              } in
              rw (finish_dispatch, here, active, same)
                (move_on-IsConsistent keys waiting d key found
                  (answered-IsConsistent keys waiting c v outcome.error outcomes requests)
                  (active_busy e active) ended _ (λ h. h) refl
                  (release_each-Releases c.config a.waiters c.global ended
                    (end_batch-IsCounted c.config e now active s.books)
                    (found_enough keys waiting c key found v)))
        ]
      ]
    ]

-- A waiter that leaves does not end the work of its entry.
all_idle-insert :
    (key : String) (e f : Entry) (m : Map Entry)
    → lookup key m ≡ some e
    → is_idle f ≡ is_idle e
    → all_idle (insert key f m) ≡ all_idle m
unfolding all_idle lookup insert
all_idle-insert key e f [] found same = ground arith
all_idle-insert key e f ((k, x) ∷ m) found same = ground (arith, all_idle-insert key e f m)

pub drain_fits-same :
    (c : Coalescer) (g : ProgressGlobalRuntime) (m : Map Entry)
    → drain_fits true c ≡ true
    → all_idle m ≡ all_idle c.entries
    → drain_fits true (record c { global = g; entries = m }) ≡ true
unfolding drain_fits
drain_fits-same c g m h same = ground arith

-- The entry that a waiter has left, its count and its last activity included.
left_behind : ℕ → Entry → Entry
left_behind now f = record f { waiters = f.waiters - 1; last_activity = now }

module _ (config : Config) (e f : Entry) (lost : Loses config e f) (now : ℕ) where
  left_behind-IsSound : IsSound config e → IsSound config (left_behind now f)
  unfolding has_active left_behind
  left_behind-IsSound s =
      let b = lost.books in
      record {
        books = record {
          counted = omega (arith, b.counted);
          within = omega (arith, b.within);
          exclusive = b.exclusive;
          scheduled = b.scheduled;
        };
        moving = rw (lost.head, lost.active) s.moving;
      }

  left_behind-is_idle : is_idle (left_behind now f) ≡ is_idle e
  unfolding is_idle has_active left_behind
  left_behind-is_idle = rw (lost.active, lost.empty) refl

  left_behind_fits : (s : State) → fits s e ≡ true → fits s (left_behind now f) ≡ true
  unfolding fits left_behind
  left_behind_fits s h = ground (arith, left_behind-is_idle, lost.forced)

pub resolve_canceled_waiter-IsConsistent :
    (keys waiting : ℕ) (c : Coalescer) (key : String) (n : ℕ)
    → IsConsistent true keys waiting c
    → (waiter now : ℕ)
    → IsConsistent true keys waiting (resolve_canceled_waiter c key n waiter now).0
unfolding resolve_canceled_waiter left_behind
resolve_canceled_waiter-IsConsistent keys waiting c key n v waiter now =
    elim (Option-cases (receive waiter c.outcomes)) [
      | inr ((o, left), got) ↦
          rw (resolve_canceled_waiter, got) (released-IsConsistent keys waiting c v left c.released)
      | inl nothing ↦ elim (Option-cases (entry_at c key n)) [
        | inl gone ↦ rw (resolve_canceled_waiter, nothing, gone) v
        | inr (e, here) ↦ elim (Option-cases (forget_waiter waiter e)) [
          | inl missing ↦ rw (resolve_canceled_waiter, nothing, here, missing) v
          | inr (f, left) ↦
              let found = entry_at-lookup c key n here in
              let s = found-IsSound keys waiting c key found v in
              let lost = forget_waiter-Loses c.config e waiter left s.books in
              let behind = left_behind now f in
              let enough = found_enough keys waiting c key found v in
              let released =
                release_waiter_locked_lem c.global f (omega (arith, lost.books.counted))
                  (omega (arith, lost.waiters, enough)) in
              rw (resolve_canceled_waiter, nothing, here, left, released)
                (record {
                  keys_counted = omega (
                    arith,
                    v.keys_counted,
                    total-insert_old (λ x. 1) key e behind c.entries found,
                  );
                  waiters_counted = omega (
                    arith,
                    v.waiters_counted,
                    lost.waiters,
                    lost.books.counted,
                    enough,
                    total-insert_old (λ x. x.waiters) key e behind c.entries found,
                  );
                  distinct = insert-HasDistinctKeys key behind c.entries v.distinct;
                  key_limit =
                      omega (
                        arith,
                        v.key_limit,
                        total-insert_old (λ x. 1) key e behind c.entries found,
                      );
                  entries_fit =
                      insert-AllValues (IsFit c) key c.entries
                        (
                          left_behind-IsSound c.config e f lost now s,
                          left_behind_fits c.config e f lost now c.state
                              (found_fits keys waiting c key found v),
                        )
                        v.entries_fit;
                  drain_ends = drain_fits-same c _ _ v.drain_ends (
                      all_idle-insert key e behind c.entries found
                        (left_behind-is_idle c.config e f lost now));
                })
        ]
      ]
    ]
