-- ===== src/Progress/Coalescer/History.antt =====
-- The histories of a coalescer: its calls in any order, any number of times and with any
-- arguments, a late timer or a caller that holds an entry that is gone included, and between them
-- what other sites do to the limits they share with it.
use emby_panel.Prelude.{ℕ, ◌+◌, ◌≡◌, refl, true, arith, String}
use emby_panel.Prelude.Maps.{total}
use emby_panel.Progress.Global.{ProgressGlobalRuntime}
use emby_panel.Progress.Coalescer.Entry.{Config, Batch}
use emby_panel.Progress.Coalescer.Calls.{
  Coalescer, Outcome, new_progress_coalescer, cleanup_idle, enqueue_update, enqueue_barrier,
  mark_batch_ready,
}
use emby_panel.Progress.Coalescer.Completion.{
  begin_progress_ingress, end_progress_ingress, finish_dispatch, resolve_canceled_waiter,
  cancel_barrier, release_barrier, begin_drain, cancel_drain, close_coalescer,
}
use emby_panel.Progress.Coalescer.Consistency.{IsConsistent, drain_fits}
use emby_panel.Progress.Coalescer.Admission.{
  enqueue_update-IsConsistent, enqueue_barrier-IsConsistent,
}
use emby_panel.Progress.Coalescer.Departure.{
  mark_batch_ready-IsConsistent, cancel_barrier-IsConsistent, release_barrier-IsConsistent,
}
use emby_panel.Progress.Coalescer.Answers.{
  finish_dispatch-IsConsistent, resolve_canceled_waiter-IsConsistent,
}
use emby_panel.Progress.Coalescer.Draining.{
  begin_progress_ingress-IsConsistent, end_progress_ingress-IsConsistent, cleanup_idle-IsConsistent,
  begin_drain-IsConsistent, cancel_drain-IsConsistent, close_coalescer-IsConsistent,
}

-- All calls but Close. An entry is named by its key and its id.
pub data Call : Type 0 where
  begins_ingress ends_ingress begins_drain : Call
  updates : String → ℕ → ℕ → Call
  bars : String → ℕ → Call
  fires : String → ℕ → ℕ → ℕ → Call
  answers : String → ℕ → Batch → Outcome → ℕ → Call
  leaves cancels releases : String → ℕ → ℕ → ℕ → Call
  cleans cancels_drain : ℕ → Call

unfoldable pub after : Call → Coalescer → Coalescer
after begins_ingress c = (begin_progress_ingress c).0
after ends_ingress c = end_progress_ingress c
after begins_drain c = (begin_drain c).0
after (updates key request now) c = (enqueue_update c key request now).0
after (bars key now) c = (enqueue_barrier c key now).0
after (fires key n batch generation) c = mark_batch_ready c key n batch generation
after (answers key n b outcome now) c = finish_dispatch c key n b outcome now
after (leaves key n waiter now) c = (resolve_canceled_waiter c key n waiter now).0
after (cancels key n barrier now) c = (cancel_barrier c key n barrier now).0
after (releases key n barrier now) c = release_barrier c key n barrier now
after (cleans now) c = cleanup_idle now c
after (cancels_drain n) c = cancel_drain c n

-- A coalescer, and what the shared limits count that is not of its entries.
pub record World : Type 0 where
  pub coalescer : Coalescer
  pub other_keys : ℕ
  pub other_waiters : ℕ

abbrev pub waiters_of : Coalescer → ℕ
waiters_of c = total (λ e. e.waiters) c.entries

pub data Step (u : World) : World → Type 0 where
  calls : (x : Call) → Step u (record u { coalescer = after x u.coalescer })
  -- The waiters that its entries still have stay counted.
  closes : Step u (record {
    coalescer = close_coalescer u.coalescer;
    other_keys = u.other_keys;
    other_waiters = waiters_of u.coalescer + u.other_waiters;
  })
  -- Other sites reserve and release.
  others_act :
      (g : ProgressGlobalRuntime) (keys waiting : ℕ)
      → g.active_keys + u.other_keys ≡ u.coalescer.global.active_keys + keys
      → g.waiters + u.other_waiters ≡ u.coalescer.global.waiters + waiting
      → Step u (record {
        coalescer = record u.coalescer { global = g };
        other_keys = keys;
        other_waiters = waiting;
      })

pub data Reach (u : World) : World → Type 0 where
  here : Reach u u
  next : {v w : World} → Reach u v → Step v w → Reach u w

-- A new coalescer, with what other sites hold already.
abbrev pub new_world : ProgressGlobalRuntime → Config → World
new_world global config = record {
  coalescer = new_progress_coalescer global config;
  other_keys = global.active_keys;
  other_waiters = global.waiters;
}

abbrev pub IsConsistentWorld : World → Type 0
IsConsistentWorld u = IsConsistent true u.other_keys u.other_waiters u.coalescer

after-IsConsistent :
    (keys waiting : ℕ) (c : Coalescer) (x : Call)
    → IsConsistent true keys waiting c
    → IsConsistent true keys waiting (after x c)
unfolding after
after-IsConsistent k w c begins_ingress v = begin_progress_ingress-IsConsistent k w c v
after-IsConsistent k w c ends_ingress v = end_progress_ingress-IsConsistent k w c v
after-IsConsistent k w c begins_drain v = begin_drain-IsConsistent k w c v
after-IsConsistent k w c (updates key request now) v =
    enqueue_update-IsConsistent k w c key now v request
after-IsConsistent k w c (bars key now) v = enqueue_barrier-IsConsistent k w c key now v
after-IsConsistent k w c (fires key n batch generation) v =
    mark_batch_ready-IsConsistent k w c key n v batch generation
after-IsConsistent k w c (answers key n b outcome now) v =
    finish_dispatch-IsConsistent k w c key n v b outcome now
after-IsConsistent k w c (leaves key n waiter now) v =
    resolve_canceled_waiter-IsConsistent k w c key n v waiter now
after-IsConsistent k w c (cancels key n barrier now) v =
    cancel_barrier-IsConsistent k w c key n v barrier now
after-IsConsistent k w c (releases key n barrier now) v =
    release_barrier-IsConsistent k w c key n v barrier now
after-IsConsistent k w c (cleans now) v = cleanup_idle-IsConsistent k w c v now
after-IsConsistent k w c (cancels_drain n) v = cancel_drain-IsConsistent k w c v n

Step-IsConsistent : {u w : World} → Step u w → IsConsistentWorld u → IsConsistentWorld w
unfolding drain_fits
Step-IsConsistent {u} (calls x) v = after-IsConsistent u.other_keys u.other_waiters u.coalescer x v
Step-IsConsistent {u} closes v =
    close_coalescer-IsConsistent u.other_keys u.other_waiters u.coalescer v
Step-IsConsistent {u} (others_act g keys waiting k w) v = record {
  keys_counted = omega (arith, v.keys_counted);
  waiters_counted = omega (arith, v.waiters_counted);
  distinct = v.distinct;
  key_limit = v.key_limit;
  entries_fit = v.entries_fit;
  drain_ends = v.drain_ends;
}

Reach-IsConsistent : {u w : World} → Reach u w → IsConsistentWorld u → IsConsistentWorld w
Reach-IsConsistent here v = v
Reach-IsConsistent (next r s) v = Step-IsConsistent s (Reach-IsConsistent r v)

pub new_world-IsConsistent :
    (global : ProgressGlobalRuntime) (config : Config) {w : World}
    → Reach (new_world global config) w
    → IsConsistentWorld w
unfolding new_progress_coalescer drain_fits
new_world-IsConsistent global config r = Reach-IsConsistent r (record {
  keys_counted = omega arith;
  waiters_counted = omega arith;
  distinct = tt;
  key_limit = omega arith;
  entries_fit = tt;
  drain_ends = refl;
})
