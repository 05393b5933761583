-- ===== src/Progress/Coalescer/Draining.antt =====
-- Draining, closing and cleaning up keep a coalescer consistent.
use emby_panel.Prelude.{
  ℕ, suc, ◌+◌, ◌≤◌, ◌≡◌, refl, true, false, not, ◌&&◌, ◌||◌, ltb, ◌==◌, Option, none, some, [], ◌∷◌,
  arith, Bool-cases, Option-cases, inl, inr, String,
}
use emby_panel.Prelude.Maps.{Map, total, size, AllValues, HasDistinctKeys, lookup, map-AllValues}
use emby_panel.Progress.Global.{ProgressGlobalRuntime, release_key}
use emby_panel.Progress.Coalescer.Entry.{Config, Entry, is_some, is_idle, force_queued_batches}
use emby_panel.Progress.Coalescer.Calls.{
  Coalescer, DrainCycle, State, open_state, quiescing, draining, is_quiescing, is_draining, is_open,
  is_closed, cleanup_idle, drop_idle,
}
use emby_panel.Progress.Coalescer.Completion.{
  all_idle, force_entries, advance_drain, begin_progress_ingress, end_progress_ingress, begin_drain,
  cancel_drain, close_coalescer, release_keys,
}
use emby_panel.Progress.Coalescer.Queue.{all_ready-force_work}
use emby_panel.Progress.Coalescer.Soundness.{
  IsSound, advance_entry-IsSound, advance_entry-waiters, advance_entry-all_ready,
  force_queued_batches-IsCounted,
}
use emby_panel.Progress.Coalescer.Answers.{drain_fits-same}
use emby_panel.Progress.Coalescer.Consistency.{
  IsConsistent, IsFit, fits, drain_fits, IsConsistent-restate, open_fits,
  complete_drain-IsConsistent,
}

force_entries-total :
    (m : Map Entry)
    → (size (force_entries m) ≡ size m)
      × (total (λ e. e.waiters) (force_entries m) ≡ total (λ e. e.waiters) m)
unfolding force_entries force_queued_batches
force_entries-total [] = (refl, refl)
force_entries-total ((k, e) ∷ m) =
    let (a, b) = force_entries-total m in
    (omega (arith, a), omega (arith, b, advance_entry-waiters (force_queued_batches e)))

force_entries_fit :
    (config : Config) (s : State) (m : Map Entry)
    → AllValues (λ e. IsSound config e × (fits s e ≡ true)) m
    → AllValues (λ e. IsSound config e × (fits draining e ≡ true)) (force_entries m)
unfolding force_entries fits
force_entries_fit config s [] fit = tt
force_entries_fit config s ((k, e) ∷ m) ((s1, f1), fit) = (
  (
    advance_entry-IsSound config (force_queued_batches e)
        (force_queued_batches-IsCounted config 0 e s1.books),
    advance_entry-all_ready (force_queued_batches e)
        (unfold force_queued_batches in all_ready-force_work e.queue),
  ),
  force_entries_fit config s m fit,
)

force_entries-lookup :
    (j : String) (m : Map Entry) → lookup j m ≡ none → lookup j (force_entries m) ≡ none
unfolding force_entries lookup
force_entries-lookup j [] h = refl
force_entries-lookup j ((k, e) ∷ m) h = ground (arith, force_entries-lookup j m)

force_entries-HasDistinctKeys :
    (m : Map Entry) → HasDistinctKeys m → HasDistinctKeys (force_entries m)
unfolding force_entries
force_entries-HasDistinctKeys [] h = tt
force_entries-HasDistinctKeys ((k, e) ∷ m) (fresh, h) =
    (force_entries-lookup k m fresh, force_entries-HasDistinctKeys m h)

drain_begins :
    (c : Coalescer) (m : Map Entry)
    → (is_some c.drain && c.admissions == 0) ≡ true
    → drain_fits false (record c { entries = m; state = draining }) ≡ true
unfolding drain_fits
drain_begins c m h = ground arith

-- What drop_idle leaves of a map.
record Keeps (g : ProgressGlobalRuntime) (m : Map Entry) (r : ProgressGlobalRuntime × Map Entry)
    : Type 0 where
  keys : r.0.active_keys + size m ≡ g.active_keys + size r.1
  waiters : r.0.waiters ≡ g.waiters
  fewer : size r.1 ≤ size m
  same : total (λ e. e.waiters) r.1 ≡ total (λ e. e.waiters) m
  work : all_idle r.1 ≡ all_idle m

drop_idle-Keeps :
    (now idle_expiry : ℕ) (m : Map Entry) (g : ProgressGlobalRuntime)
    → size m ≤ g.active_keys
    → Keeps g m (drop_idle now idle_expiry m g)
unfolding drop_idle all_idle release_key
drop_idle-Keeps now idle_expiry [] g enough = record {
  keys = refl;
  waiters = refl;
  fewer = omega arith;
  same = refl;
  work = refl;
}
drop_idle-Keeps now idle_expiry ((k, e) ∷ m) g enough =
    let v = drop_idle-Keeps now idle_expiry m g (omega arith) in
    ground (arith, v.keys, v.waiters, v.fewer, v.same, v.work)

drop_idle-lookup :
    (now idle_expiry : ℕ) (j : String) (m : Map Entry) (g : ProgressGlobalRuntime)
    → lookup j m ≡ none
    → lookup j (drop_idle now idle_expiry m g).1 ≡ none
unfolding drop_idle lookup
drop_idle-lookup now idle_expiry j [] g h = refl
drop_idle-lookup now idle_expiry j ((k, e) ∷ m) g h =
    ground (arith, drop_idle-lookup now idle_expiry j m g)

drop_idle-HasDistinctKeys :
    (now idle_expiry : ℕ) (m : Map Entry) (g : ProgressGlobalRuntime)
    → HasDistinctKeys m
    → HasDistinctKeys (drop_idle now idle_expiry m g).1
unfolding drop_idle
drop_idle-HasDistinctKeys now idle_expiry [] g h = tt
drop_idle-HasDistinctKeys now idle_expiry ((k, e) ∷ m) g (fresh, h) =
    let rest = drop_idle-HasDistinctKeys now idle_expiry m g h in
    elim (Bool-cases
      (not (is_idle e) || not (e.waiters == 0) || ltb now (e.last_activity + idle_expiry))) [
        | inl stays ↦ rw stays (drop_idle-lookup now idle_expiry k m g fresh, rest)
        | inr goes ↦ rw goes rest
      ]

drop_idle-AllValues {ℓ} :
    (P : Entry → Type ℓ) (now idle_expiry : ℕ) (m : Map Entry) (g : ProgressGlobalRuntime)
    → AllValues P m
    → AllValues P (drop_idle now idle_expiry m g).1
unfolding drop_idle
drop_idle-AllValues P now idle_expiry [] g all = tt
drop_idle-AllValues P now idle_expiry ((k, e) ∷ m) g (p, all) =
    let rest = drop_idle-AllValues P now idle_expiry m g all in
    elim (Bool-cases
      (not (is_idle e) || not (e.waiters == 0) || ltb now (e.last_activity + idle_expiry))) [
        | inl stays ↦ rw stays (p, rest)
        | inr goes ↦ rw goes rest
      ]

release_keys_lem :
    (m : Map Entry) (g : ProgressGlobalRuntime)
    → size m ≤ g.active_keys
    → ((release_keys m g).active_keys + size m ≡ g.active_keys)
      × ((release_keys m g).waiters ≡ g.waiters)
unfolding release_keys release_key
release_keys_lem [] g enough = (omega arith, refl)
release_keys_lem ((k, e) ∷ m) g enough = ground (arith, release_keys_lem m (release_key g))

module _ (keys waiting : ℕ) (c : Coalescer) where
  -- A drain whose admissions may have just ended.
  advance_drain-IsConsistent :
      AllValues (IsFit c) c.entries
      → HasDistinctKeys c.entries
      → c.global.active_keys ≡ size c.entries + keys
      → c.global.waiters ≡ total (λ e. e.waiters) c.entries + waiting
      → size c.entries ≤ c.config.max_site_keys
      → ((is_quiescing c.state && c.admissions == 0) ≡ false → drain_fits true c ≡ true)
      → (is_quiescing c.state ≡ true → is_some c.drain ≡ true)
      → IsConsistent true keys waiting (advance_drain c)
  unfolding advance_drain
  advance_drain-IsConsistent fit d k w l ends cycle =
      elim (Bool-cases (is_quiescing c.state && is_some c.drain && c.admissions == 0)) [
        | inr waits ↦ rw waits (record {
          keys_counted = k;
          waiters_counted = w;
          distinct = d;
          key_limit = l;
          entries_fit = fit;
          drain_ends = ends (ground (arith, cycle));
        })
        | inl drains ↦
            let (same, counts) = force_entries-total c.entries in
            rw drains (
              complete_drain-IsConsistent keys waiting
                (record c { state = draining; entries = force_entries c.entries }) {settled = false}
                (record {
                  keys_counted = omega (arith, k, same);
                  waiters_counted = omega (arith, w, counts);
                  distinct = force_entries-HasDistinctKeys c.entries d;
                  key_limit = omega (arith, l, same);
                  entries_fit = force_entries_fit c.config c.state c.entries fit;
                  drain_ends = drain_begins c _ (ground arith);
                }))
      ]

drain_fits_lem :
    (c : Coalescer)
    → drain_fits true c ≡ true
    → is_quiescing c.state ≡ true
    → is_some c.drain ≡ true
unfolding drain_fits
drain_fits_lem c h q = ground arith

module _ (keys waiting : ℕ) (c : Coalescer) (v : IsConsistent true keys waiting c) where
  pub begin_progress_ingress-IsConsistent :
      IsConsistent true keys waiting (begin_progress_ingress c).0
  unfolding begin_progress_ingress drain_fits
  begin_progress_ingress-IsConsistent = elim (Bool-cases (is_open c.state)) [
    | inr refused ↦ rw (begin_progress_ingress, refused) v
    | inl taken ↦
        rw (begin_progress_ingress, taken)
          (record {
            keys_counted = v.keys_counted;
            waiters_counted = v.waiters_counted;
            distinct = v.distinct;
            key_limit = v.key_limit;
            entries_fit = v.entries_fit;
            drain_ends = ground (arith, v.drain_ends);
          })
  ]

  pub end_progress_ingress-IsConsistent : IsConsistent true keys waiting (end_progress_ingress c)
  unfolding end_progress_ingress drain_fits
  end_progress_ingress-IsConsistent =
      advance_drain-IsConsistent keys waiting _ v.entries_fit v.distinct v.keys_counted
        v.waiters_counted v.key_limit (λ h. ground (arith, v.drain_ends))
        (λ q. ground (arith, v.drain_ends))

  pub cleanup_idle-IsConsistent : (now : ℕ) → IsConsistent true keys waiting (cleanup_idle now c)
  unfolding cleanup_idle
  cleanup_idle-IsConsistent now = elim (Bool-cases (c.config.idle_expiry == 0)) [
    | inl never ↦ rw (cleanup_idle, never) v
    | inr expires ↦
        let r =
          drop_idle-Keeps now c.config.idle_expiry c.entries c.global
            (omega (arith, v.keys_counted)) in
        rw (cleanup_idle, expires)
          (record {
            keys_counted = omega (arith, v.keys_counted, r.keys);
            waiters_counted = omega (arith, v.waiters_counted, r.waiters, r.same);
            distinct =
                drop_idle-HasDistinctKeys now c.config.idle_expiry c.entries c.global v.distinct;
            key_limit = omega (arith, v.key_limit, r.fewer);
            entries_fit =
                drop_idle-AllValues (IsFit c) now c.config.idle_expiry c.entries c.global
                  v.entries_fit;
            drain_ends = drain_fits-same c _ _ v.drain_ends r.work;
          })
  ]

  pub cancel_drain-IsConsistent : (n : ℕ) → IsConsistent true keys waiting (cancel_drain c n)
  unfolding cancel_drain drain_fits
  cancel_drain-IsConsistent n = elim (Option-cases c.drain) [
    | inl no_drain ↦ rw (cancel_drain, no_drain) v
    | inr (cycle, some_drain) ↦
        elim (Bool-cases ((is_quiescing c.state || is_draining c.state) && cycle.id == n)) [
          | inr other ↦ rw (cancel_drain, some_drain, other) v
          | inl own ↦
              rw (cancel_drain, some_drain, own)
                (IsConsistent-restate keys waiting c none open_state c.finished v
                  (open_fits keys waiting c c.entries) refl)
        ]
  ]

  pub begin_drain-IsConsistent : IsConsistent true keys waiting (begin_drain c).0
  unfolding begin_drain drain_fits fits
  begin_drain-IsConsistent = elim (Bool-cases (is_open c.state)) [
    | inr other ↦ let same : (begin_drain c).0 ≡ c = ground arith in rw same v
    | inl free ↦
        let cycle : Option DrainCycle = some (record { id = c.next_id; err = [] }) in
        let d : Coalescer = record c {
          state = quiescing;
          drain = cycle;
          next_id = suc c.next_id;
        } in
        let begun : (begin_drain c).0 ≡ advance_drain d = ground arith in
        rw begun (
          advance_drain-IsConsistent keys waiting d
            (map-AllValues (IsFit c) (IsFit d) c.entries (λ e p. (p.0, refl)) v.entries_fit)
            v.distinct v.keys_counted v.waiters_counted v.key_limit (λ h. ground arith) (λ q. refl))
  ]

  closed-total :
      (m : Map Entry)
      → AllValues (IsFit c) m
      → is_closed c.state ≡ true
      → total (λ e. e.waiters) m ≡ 0
  unfolding fits
  closed-total [] fit over = refl
  closed-total ((k, e) ∷ m) ((s, f), fit) over = ground arith

  -- The waiters of a closed coalescer stay counted.
  pub close_coalescer-IsConsistent :
      IsConsistent true keys (total (λ e. e.waiters) c.entries + waiting) (close_coalescer c)
  unfolding close_coalescer drain_fits
  close_coalescer-IsConsistent = elim (Bool-cases (is_closed c.state)) [
    | inl over ↦
        let same : total (λ e. e.waiters) c.entries + waiting ≡ waiting =
          omega (arith, closed-total c.entries v.entries_fit over) in
        rw (close_coalescer, over, same) v
    | inr live ↦
        let (keys_gone, same) =
          release_keys_lem c.entries c.global (omega (arith, v.keys_counted)) in
        rw (close_coalescer, live)
          (record {
            keys_counted = omega (arith, v.keys_counted, keys_gone);
            waiters_counted = omega (arith, v.waiters_counted, same);
            distinct = tt;
            key_limit = omega arith;
            entries_fit = tt;
            drain_ends = refl;
          })
  ]
