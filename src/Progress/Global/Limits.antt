-- ===== src/Progress/Global/Limits.antt =====
-- The shared limits hold, and what is held is what is counted.
use emby_panel.Prelude.{
  ℕ, ◌+◌, ◌-◌, ◌≤◌, ◌<◌, ◌≡◌, refl, true, ◌==◌, ◌||◌, leb, ltb, arith, Bool-cases, inl, inr,
  if◌then◌else◌,
}
use emby_panel.Progress.Global.{
  ProgressGlobalRuntime, new_progress_global_runtime, reserve_key, release_key, reserve_waiter,
  release_waiter,
}

-- The keys and waiters that the sites hold.
pub record Held : Type 0 where
  pub runtime : ProgressGlobalRuntime
  pub keys : ℕ
  pub waiting : ℕ

pub data Step (h : Held) (k : Held) : Type 0 where
  reserves_key :
      k ≡ (
        let (r, got) = reserve_key h.runtime in
        record { runtime = r; keys = if got then h.keys + 1 else h.keys; waiting = h.waiting })
      → Step h k
  releases_key :
      0 < h.keys
      → k ≡ record { runtime = release_key h.runtime; keys = h.keys - 1; waiting = h.waiting }
      → Step h k
  reserves_waiter :
      k ≡ (
        let (r, got) = reserve_waiter h.runtime in
        record { runtime = r; keys = h.keys; waiting = if got then h.waiting + 1 else h.waiting })
      → Step h k
  releases_waiter :
      0 < h.waiting
      → k ≡ record { runtime = release_waiter h.runtime; keys = h.keys; waiting = h.waiting - 1 }
      → Step h k

pub data Reach (h : Held) : Held → Type 0 where
  here : Reach h h
  next : {u v : Held} → Reach h u → Step u v → Reach h v

record Inv (max_keys max_waiters : ℕ) (h : Held) : Type 0 where
  key_limit : h.runtime.max_active_keys ≡ max_keys
  waiter_limit : h.runtime.max_waiters ≡ max_waiters
  keys : h.runtime.active_keys ≡ h.keys
  waiters : h.runtime.waiters ≡ h.waiting
  keys_bound : h.keys ≤ max_keys
  waiters_bound : h.waiting ≤ max_waiters

module _ (max_keys max_waiters : ℕ) where
  Step-Inv : {h k : Held} → Step h k → Inv max_keys max_waiters h → Inv max_keys max_waiters k
  unfolding reserve_key release_key reserve_waiter release_waiter
  Step-Inv {h} (reserves_key e) v =
      let r = h.runtime in
      elim (Bool-cases (r.max_active_keys == 0 || leb r.max_active_keys r.active_keys)) [
        | inl full ↦ rw (e, full) v
        | inr room ↦
            rw (e, room)
              (record {
                key_limit = v.key_limit;
                waiter_limit = v.waiter_limit;
                keys = omega (arith, v.keys);
                waiters = v.waiters;
                keys_bound = ground (arith, v.keys, v.key_limit);
                waiters_bound = v.waiters_bound;
              })
      ]
  Step-Inv {h} (reserves_waiter e) v =
      let r = h.runtime in
      elim (Bool-cases (r.max_waiters == 0 || leb r.max_waiters r.waiters)) [
        | inl full ↦ rw (e, full) v
        | inr room ↦
            rw (e, room)
              (record {
                key_limit = v.key_limit;
                waiter_limit = v.waiter_limit;
                keys = v.keys;
                waiters = omega (arith, v.waiters);
                keys_bound = v.keys_bound;
                waiters_bound = ground (arith, v.waiters, v.waiter_limit);
              })
      ]
  Step-Inv {h} (releases_key held e) v =
      let some_key : ltb 0 h.runtime.active_keys ≡ true = ground (arith, v.keys) in
      rw (e, some_key)
        (record {
          key_limit = v.key_limit;
          waiter_limit = v.waiter_limit;
          keys = omega (arith, v.keys);
          waiters = v.waiters;
          keys_bound = omega (arith, v.keys_bound);
          waiters_bound = v.waiters_bound;
        })
  Step-Inv {h} (releases_waiter held e) v =
      let some_waiter : ltb 0 h.runtime.waiters ≡ true = ground (arith, v.waiters) in
      rw (e, some_waiter)
        (record {
          key_limit = v.key_limit;
          waiter_limit = v.waiter_limit;
          keys = v.keys;
          waiters = omega (arith, v.waiters);
          keys_bound = v.keys_bound;
          waiters_bound = omega (arith, v.waiters_bound);
        })

  Reach-Inv : {h k : Held} → Reach h k → Inv max_keys max_waiters h → Inv max_keys max_waiters k
  Reach-Inv here v = v
  Reach-Inv (next r s) v = Step-Inv s (Reach-Inv r v)

-- Whatever sites reserve and release, each release for something held: the counters are exactly
-- the keys and waiters that are held, and both stay within their limits.
pub progress_limits_kept :
    (max_keys max_waiters : ℕ) (h : Held)
    → Reach
        (record {
          runtime = new_progress_global_runtime max_keys max_waiters;
          keys = 0;
          waiting = 0;
        })
        h
    → (h.runtime.active_keys ≡ h.keys)
      × (h.runtime.waiters ≡ h.waiting)
      × (h.keys ≤ max_keys)
      × (h.waiting ≤ max_waiters)
unfolding new_progress_global_runtime
progress_limits_kept max_keys max_waiters h r =
    let v = Reach-Inv max_keys max_waiters r (record {
      key_limit = refl;
      waiter_limit = refl;
      keys = refl;
      waiters = refl;
      keys_bound = omega arith;
      waiters_bound = omega arith;
    }) in
    (v.keys, v.waiters, v.keys_bound, v.waiters_bound)
