-- ===== src/Progress/Coalescer/Consistency.antt =====
-- A coalescer is consistent: its entries are sound, its keys and waiters are those that the
-- shared limits count, and a drain waits only for what will end it.
use emby_panel.Prelude.{
  ℕ, ◌+◌, ◌≤◌, ◌≡◌, refl, Bool, true, false, not, ◌&&◌, ◌||◌, ltb, ◌==◌, Option, none, some, List,
  [], ◌∷◌, arith, Bool-cases, Option-cases, List-cases, inl, inr, String,
}
use emby_panel.Prelude.Maps.{
  Map, lookup, total, size, AllValues, total-insert_old, insert-AllValues, HasDistinctKeys,
  insert-HasDistinctKeys, map-AllValues,
}
use emby_panel.Progress.Global.{ProgressGlobalRuntime}
use emby_panel.Progress.Coalescer.Entry.{Entry, is_some, is_idle, advance_entry}
use emby_panel.Progress.Coalescer.Calls.{
  Coalescer, DrainCycle, State, open_state, quiescing, draining, drained, closed, put_entry,
  is_draining, is_open, is_quiescing,
}
use emby_panel.Progress.Coalescer.Completion.{all_idle, complete_drain}
use emby_panel.Progress.Coalescer.Queue.{all_ready}
use emby_panel.Progress.Coalescer.Soundness.{
  IsCounted, IsSound, advance_entry-IsSound, advance_entry-waiters,
}

-- What an entry is like in each state of the coalescer.
unfoldable pub fits : State → Entry → Bool
unfolding is_idle
fits open_state e = true
fits quiescing e = true
fits draining e = all_ready e.queue
fits drained e = is_idle e
fits closed e = false

-- When draining, some entry has work, unless the end of the drain is yet to be seen (`settled` is
-- false).
unfoldable pub drain_fits : Bool → Coalescer → Bool
drain_fits settled c = elim c.state [
  | open_state ↦ not (is_some c.drain)
  | quiescing ↦ is_some c.drain && ltb 0 c.admissions
  | draining ↦ is_some c.drain && c.admissions == 0 && (not settled || not (all_idle c.entries))
  | drained ↦ not (is_some c.drain)
  | closed ↦ true
]

abbrev pub IsFit : Coalescer → Entry → Type 0
IsFit c e = IsSound c.config e × (fits c.state e ≡ true)

-- `keys` and `waiting` are the keys and waiters that the shared limits count for others.
pub record IsConsistent (settled : Bool) (keys waiting : ℕ) (c : Coalescer) : Type 0 where
  pub keys_counted : c.global.active_keys ≡ size c.entries + keys
  pub waiters_counted : c.global.waiters ≡ total (λ e. e.waiters) c.entries + waiting
  pub distinct : HasDistinctKeys c.entries
  pub key_limit : size c.entries ≤ c.config.max_site_keys
  pub entries_fit : AllValues (IsFit c) c.entries
  pub drain_ends : drain_fits settled c ≡ true

both :
    (P Q : Entry → Type 0) (m : Map Entry)
    → AllValues P m
    → AllValues Q m
    → AllValues (λ e. P e × Q e) m
both P Q [] ps qs = tt
both P Q ((k, e) ∷ rest) (p, ps) (q, qs) = ((p, q), both P Q rest ps qs)

-- A drain that has not been seen to end fits whatever becomes of the entries.
pub drain_fits-unsettled :
    (settled : Bool) (c : Coalescer) (g : ProgressGlobalRuntime) (m : Map Entry)
    → drain_fits settled c ≡ true
    → drain_fits false (record c { global = g; entries = m }) ≡ true
unfolding drain_fits
drain_fits-unsettled settled c g m h = ground arith

module _ (keys waiting : ℕ) (c : Coalescer) where
  pub IsConsistent-restate :
      {settled : Bool} (d : Option DrainCycle) (s : State) (f : List DrainCycle)
      → IsConsistent settled keys waiting c
      → AllValues (λ e. fits s e ≡ true) c.entries
      → drain_fits true (record c { drain = d; state = s; finished = f }) ≡ true
      → IsConsistent true keys waiting (record c { drain = d; state = s; finished = f })
  IsConsistent-restate d s f v fit ends = record {
    keys_counted = v.keys_counted;
    waiters_counted = v.waiters_counted;
    distinct = v.distinct;
    key_limit = v.key_limit;
    entries_fit =
        both (IsSound c.config) (λ e. fits s e ≡ true) c.entries
          (map-AllValues (IsFit c) (IsSound c.config) c.entries (λ e p. p.0) v.entries_fit) fit;
    drain_ends = ends;
  }

  IsConsistent-settled :
      {settled : Bool}
      → drain_fits true c ≡ true
      → IsConsistent settled keys waiting c
      → IsConsistent true keys waiting c
  IsConsistent-settled ends v = record {
    keys_counted = v.keys_counted;
    waiters_counted = v.waiters_counted;
    distinct = v.distinct;
    key_limit = v.key_limit;
    entries_fit = v.entries_fit;
    drain_ends = ends;
  }

  pub open_fits : (m : Map Entry) → AllValues (λ e. fits open_state e ≡ true) m
  unfolding fits
  open_fits [] = tt
  open_fits ((k, e) ∷ rest) = (refl, open_fits rest)

  drained_fits : (m : Map Entry) → all_idle m ≡ true → AllValues (λ e. fits drained e ≡ true) m
  unfolding fits all_idle
  drained_fits [] h = tt
  drained_fits ((k, e) ∷ rest) h = (ground arith, drained_fits rest (ground arith))

  pub complete_drain-IsConsistent :
      {settled : Bool}
      → IsConsistent settled keys waiting c
      → IsConsistent true keys waiting (complete_drain c)
  unfolding complete_drain drain_fits
  complete_drain-IsConsistent v = elim (Bool-cases (is_draining c.state && all_idle c.entries)) [
    | inr busy ↦
        let same : complete_drain c ≡ c = ground arith in
        rw same (IsConsistent-settled (ground (arith, v.drain_ends)) v)
    | inl over ↦ elim (Option-cases c.drain) [
      | inl none_left ↦ ground (arith, v.drain_ends)
      | inr (cycle, e) ↦ elim (List-cases cycle.err) [
        | inl fine ↦
            let ended : complete_drain c
                ≡ record c { drain = none; state = drained; finished = cycle ∷ c.finished } =
              ground (arith, v.drain_ends) in
            rw ended (
              IsConsistent-restate none drained (cycle ∷ c.finished) v
                (drained_fits c.entries (ground arith)) refl)
        | inr (x, xs, failed) ↦
            let ended : complete_drain c
                ≡ record c { drain = none; state = open_state; finished = cycle ∷ c.finished } =
              ground (arith, v.drain_ends) in
            rw ended (
              IsConsistent-restate none open_state (cycle ∷ c.finished) v (open_fits c.entries)
                refl)
      ]
    ]
  ]

  -- The entry of a key is changed, with what the shared limits count for it.
  pub put_entry-IsConsistent :
      (settled : Bool) (key : String) {e : Entry} (f : Entry) (g : ProgressGlobalRuntime)
      → lookup key c.entries ≡ some e
      → IsConsistent settled keys waiting c
      → IsCounted c.config 0 f
      → (fits c.state (advance_entry f) ≡ true)
      → g.active_keys ≡ c.global.active_keys
      → g.waiters + e.waiters ≡ c.global.waiters + f.waiters
      → IsConsistent false keys waiting (put_entry c key g f)
  unfolding put_entry
  put_entry-IsConsistent settled key {e} f g found v books fit keys_same waiters_moved = record {
    keys_counted = omega (
      arith,
      v.keys_counted,
      keys_same,
      total-insert_old (λ e. 1) key e (advance_entry f) c.entries found,
    );
    waiters_counted = omega (
      arith,
      v.waiters_counted,
      waiters_moved,
      advance_entry-waiters f,
      total-insert_old (λ e. e.waiters) key e (advance_entry f) c.entries found,
    );
    distinct = insert-HasDistinctKeys key (advance_entry f) c.entries v.distinct;
    key_limit =
        omega
          (arith, v.key_limit, total-insert_old (λ e. 1) key e (advance_entry f) c.entries found);
    entries_fit =
        insert-AllValues (IsFit c) key c.entries (advance_entry-IsSound c.config f books, fit)
          v.entries_fit;
    drain_ends = drain_fits-unsettled settled c g _ v.drain_ends;
  }

-- When work is taken, a drain does not look at the entries.
abbrev pub takes_work : Coalescer → Bool
takes_work c = is_open c.state || is_quiescing c.state

pub IsConsistent-taken :
    (keys waiting : ℕ) (c : Coalescer) (settled : Bool) (n : ℕ) (released : List ℕ)
    → takes_work c ≡ true
    → IsConsistent settled keys waiting c
    → IsConsistent true keys waiting (record c { next_id = n; released = released })
unfolding drain_fits
IsConsistent-taken keys waiting c settled n released taken v = record {
  keys_counted = v.keys_counted;
  waiters_counted = v.waiters_counted;
  distinct = v.distinct;
  key_limit = v.key_limit;
  entries_fit = v.entries_fit;
  drain_ends = ground (arith, v.drain_ends);
}
