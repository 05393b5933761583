-- ===== src/Failover.antt =====
-- upstream_failover.go: which of a site's lines a request tries, and in which order. A target is
-- of any type, with the key that upstreamTargetKey computes; keys are texts. An instant is a
-- number of nanoseconds, and 0 is the zero Time, so a missing entry of the map reads as 0.
mod Examples
pub mod Order
pub mod Probe
pub mod Memory
pub mod Attempts
pub mod Targets
pub mod Lines
use emby_panel.Prelude.{
  ℕ, ◌+◌, ◌-◌, ◌<◌, ◌*◌, Bool, true, false, not, ◌&&◌, ◌||◌, Option, none, some, List, [], ◌∷◌,
  ◌++◌, String, length, leb, ltb, str_eq, if◌then◌else◌,
}

abbrev pub max_failover_targets : ℕ
max_failover_targets = 8

-- Durations, in nanoseconds.
abbrev pub failover_cooldown : ℕ
failover_cooldown = 30000000000

abbrev pub failover_preferred_lifetime : ℕ
failover_preferred_lifetime = 300000000000

pub record FailoverState : Type 0 where
  pub preferred : String
  pub preferred_until : ℕ
  pub failed_until : String → ℕ
  pub primary_probe_at : ℕ

unfoldable pub new_upstream_failover_state : FailoverState
new_upstream_failover_state = record {
  preferred = "";
  preferred_until = 0;
  failed_until = λ k. 0;
  primary_probe_at = 0;
}

-- m[k] = t
pub set_key : String → ℕ → (String → ℕ) → String → ℕ
set_key k t m j = if str_eq k j then t else m j

-- The loop over failedUntil that forgets what has passed.
pub prune_failed : ℕ → (String → ℕ) → String → ℕ
prune_failed now m k = if ltb now (m k) then m k else 0

-- until.After(now)
abbrev pub cooling : FailoverState → String → ℕ → Bool
cooling s k now = ltb now (s.failed_until k)

-- The part of ordered before the primary is looked at.
pub refresh : ℕ → FailoverState → FailoverState
refresh now s = record s {
  failed_until = prune_failed now s.failed_until;
  preferred = if ltb now s.preferred_until then s.preferred else "";
}

pub probes_primary : String → ℕ → FailoverState → Bool
probes_primary primary_key now s =
    not (str_eq s.preferred "")
    && not (str_eq s.preferred primary_key)
    && not (cooling s primary_key now)
    && not (ltb now s.primary_probe_at)

-- The three lists of ordered.
pub data Rank : Type 0 where
  first second last : Rank

pub rank : Bool → String → ℕ → FailoverState → String → Rank
rank probe primary_key now s key =
    if probe && str_eq key primary_key
    then first
    else if str_eq key s.preferred && not (cooling s key now)
    then first
    else if cooling s key now
    then last
    else second

pub same_rank : Rank → Rank → Bool
same_rank first first = true
same_rank second second = true
same_rank last last = true
same_rank _ _ = false

pub mark_failure_key : String → ℕ → FailoverState → FailoverState
mark_failure_key k now s =
    if str_eq k ""
    then s
    else (let t = record s {
      failed_until = set_key k (now + failover_cooldown) s.failed_until;
      primary_probe_at = now + failover_cooldown;
    } in
        if str_eq s.preferred k then record t { preferred = ""; preferred_until = 0 } else t)

-- delete(failedUntil, key) makes the entry read as 0.
pub mark_success_key : String → ℕ → FailoverState → FailoverState
mark_success_key k now s = if str_eq k "" then s else record s {
  failed_until = set_key k 0 s.failed_until;
  preferred = k;
  preferred_until = now + failover_preferred_lifetime;
  primary_probe_at = 0;
}

-- The test of preferredTarget, and the state that it leaves.
pub has_no_preference : ℕ → FailoverState → Bool
has_no_preference now s =
    str_eq s.preferred "" || not (ltb now s.preferred_until) || cooling s s.preferred now

pub forget_preference : ℕ → FailoverState → FailoverState
forget_preference now s =
    if ltb now s.preferred_until then s else record s { preferred = ""; preferred_until = 0 }

-- The recovery probe of ordered: it reserves the probe for one request.
pub reserve_probe : Bool → ℕ → FailoverState → FailoverState
reserve_probe probe now s =
    if probe then record s { primary_probe_at = now + failover_cooldown } else s

module _ {T : Type 0} (key : T → String) where
  -- The targets that the loop of ordered appends to one of its lists.
  pub with_rank : (String → Rank) → Rank → List T → List T
  unfolding same_rank
  with_rank f r [] = []
  with_rank f r (t ∷ ts) =
      let rest = with_rank f r ts in if same_rank (f (key t)) r then t ∷ rest else rest

  pub in_order : (String → Rank) → List T → List T
  in_order f ts = (with_rank f first ts ++ with_rank f second ts) ++ with_rank f last ts

  pub ordered : List T → ℕ → FailoverState → FailoverState × List T
  unfolding in_order refresh
  ordered [] now s = (s, [])
  ordered (t ∷ []) now s = (s, t ∷ [])
  ordered (t ∷ u ∷ ts) now s =
      let s' = refresh now s in
      let probe = probes_primary (key t) now s' in
      (reserve_probe probe now s', in_order (rank probe (key t) now s') (t ∷ u ∷ ts))

  pub mark_failure : T → ℕ → FailoverState → FailoverState
  unfolding mark_failure_key
  mark_failure t = mark_failure_key (key t)

  pub mark_success : T → ℕ → FailoverState → FailoverState
  unfolding mark_success_key
  mark_success t = mark_success_key (key t)

  -- for _, target := range targets
  pub find_key : String → List T → Option T
  find_key k [] = none
  find_key k (t ∷ ts) = if str_eq (key t) k then some t else find_key k ts

  pub preferred_target : List T → ℕ → FailoverState → FailoverState × Option T
  unfolding has_no_preference forget_preference
  preferred_target targets now s =
      if ltb (length targets) 2
      then (s, none)
      else if has_no_preference now s
      then (forget_preference now s, none)
      else (s, find_key s.preferred targets)
