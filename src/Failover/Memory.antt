-- ===== src/Failover/Memory.antt =====
-- What a success and a failure are remembered for.
use mathlib.Core.List.{Memᴰ}
use emby_panel.Prelude.{
  Bool-cases, inl, inr, ap, sym, ℕ, ◌<◌, ◌≤◌, ◌+◌, ◌≡◌, ◌≢◌, refl, true, false, some, List, [], ◌∷◌,
  String, arith, length, str_eq, eq_iff,
}
use emby_panel.Failover.{
  FailoverState, failover_cooldown, failover_preferred_lifetime, cooling, set_key, find_key,
  mark_failure, mark_success, preferred_target,
}

module _ {T : Type 0} (key : T → String) where
  find_key-eq : (k : String) (ts : List T) (t : T) → find_key key k ts ≡ some t → key t ≡ k
  unfolding find_key
  find_key-eq k [] t h = cc
  find_key-eq k (u ∷ ts) t h = ground (arith, eq_iff (key u) k, find_key-eq k ts t)

  find_key-Memᴰ :
      (t : T) (ts : List T)
      → Memᴰ t ts
      → (u : T) × (find_key key (key t) ts ≡ some u) × (key u ≡ key t)
  unfolding find_key
  find_key-Memᴰ t [] m = elim m [ ]
  find_key-Memᴰ t (u ∷ ts) (Memᴰ.head e) =
      (u, ground (arith, eq_iff (key u) (key t)), ap key (sym e))
  find_key-Memᴰ t (u ∷ ts) (Memᴰ.tail m) = elim (Bool-cases (str_eq (key u) (key t))) [
    | inl same ↦ (u, rw same refl, (eq_iff (key u) (key t)).0 same)
    | inr other ↦ rw other (find_key-Memᴰ t ts m)
  ]

  -- A line with a key that failed is no request's preferred one until its cooldown is over.
  pub failed_not_preferred :
      (t u : T) (ts : List T) (now later : ℕ) (s : FailoverState)
      → key t ≢ ""
      → later < now + failover_cooldown
      → (preferred_target key ts later (mark_failure key t now s)).1 ≡ some u
      → key u ≢ key t
  unfolding preferred_target mark_failure set_key
  failed_not_preferred t u ts now later s named soon chosen e = ground (
    arith,
    eq_iff (key t) "",
    eq_iff s.preferred (key t),
    eq_iff (key t) s.preferred,
    eq_iff (key t) (key t),
    find_key-eq s.preferred ts u,
    find_key-eq "" ts u,
  )

  -- A line with a key cools down from its failure until the cooldown is over, so that ordered puts
  -- it behind the lines that do not.
  pub failed_cools_down :
      (t : T) (now later : ℕ) (s : FailoverState)
      → key t ≢ ""
      → later < now + failover_cooldown
      → cooling (mark_failure key t now s) (key t) later ≡ true
  unfolding mark_failure set_key
  failed_cools_down t now later s named soon =
      ground (arith, eq_iff (key t) "", eq_iff (key t) (key t))

  -- After a success of a line with a key, the line of that key is the preferred one until its
  -- lifetime is over, for every list of two or more lines that has it, and it no longer cools down.
  pub succeeded_is_preferred :
      (t : T) (ts : List T) (now later : ℕ) (s : FailoverState)
      → key t ≢ ""
      → Memᴰ t ts
      → 2 ≤ length ts
      → later < now + failover_preferred_lifetime
      → let s' = mark_success key t now s in
        (u : T) × (preferred_target key ts later s' ≡ (s', some u))
        × (key u ≡ key t)
        × (cooling s' (key t) later ≡ false)
  unfolding preferred_target mark_success set_key
  succeeded_is_preferred t ts now later s named m two soon =
      let (u, found, same) = find_key-Memᴰ t ts m in
      (
        u,
        ground (arith, eq_iff (key t) "", eq_iff (key t) (key t), found),
        same,
        ground (arith, eq_iff (key t) "", eq_iff (key t) (key t)),
      )
