-- ===== src/Access/LoginLimiter/Lockout.antt =====
-- What a client that keeps failing meets.
use emby_panel.Prelude.{
  All, ℕ, suc, ◌+◌, ◌-◌, ◌≤◌, ◌<◌, ◌≡◌, ◌∙◌, refl, ap, true, false, none, some, List, [], ◌∷◌,
  String, arith, eq_iff, leb, ltb, ◌==◌, length,
}
use emby_panel.Prelude.Maps.{Map, lookup, lookup-insert}
use emby_panel.Access.LoginLimiter.{
  LoginAttempt, LoginRateLimiter, login_failure_window, login_lockout_duration, is_expired,
  prune_attempts, prune_expired, put_attempt, allow_at, allow, attempt_of, failed_attempt,
  make_room, record_failure,
}

-- An entry that is not expired outlives the pruning.
pub lookup-prune_attempts :
    (now : ℕ) (k : String) (a : LoginAttempt) (m : Map LoginAttempt)
    → lookup k m ≡ some a
    → is_expired now a ≡ false
    → lookup k (prune_attempts now m) ≡ some a
unfolding lookup prune_attempts
lookup-prune_attempts now k a [] h live = absurd (ground arith)
lookup-prune_attempts now k a ((c, b) ∷ m) h live = ground (arith, lookup-prune_attempts now k a m)

pub lookup-record_failure :
    (client : String) (now : ℕ) (l : LoginRateLimiter)
    → lookup client (record_failure client now l).0.attempts
      ≡ some (failed_attempt now (attempt_of (lookup client (prune_expired now l).attempts)))
unfolding record_failure put_attempt
lookup-record_failure client now l =
    let l' = prune_expired now l in
    let next = failed_attempt now (attempt_of (lookup client l'.attempts)) in
    ground (
      arith,
      lookup-insert client client next (make_room (lookup client l'.attempts) l').attempts,
      eq_iff client client,
    )

pub allow_blocked :
    (client : String) (later : ℕ) (a : LoginAttempt) (l : LoginRateLimiter)
    → lookup client l.attempts ≡ some a
    → later < a.blocked_until
    → let (_, allowed, left) = allow client later l in
      (allowed ≡ false) × (left ≡ a.blocked_until - later)
unfolding allow allow_at prune_expired is_expired
allow_blocked client later a l found soon =
    rw (lookup-prune_attempts later client a l.attempts found (ground arith))
      (let blocked : ltb later a.blocked_until ≡ true = ground arith in rw blocked (refl, refl))

-- n failures in a row at the given times.
unfoldable pub failures_at : String → List ℕ → LoginRateLimiter → LoginRateLimiter
failures_at client [] l = l
failures_at client (t ∷ ts) l = failures_at client ts (record_failure client t l).0

-- The entry of a client with n failures since t.
record Failed (n t : ℕ) (a : LoginAttempt) : Type 0 where
  counted : a.failures ≡ n
  since : a.first_failure ≡ t
  free : n < 5 → a.blocked_until ≡ 0

failed_attempt-Failed :
    (n t now : ℕ) (a : LoginAttempt)
    → 0 < t
    → now < t + login_failure_window
    → Failed n t a
    → Failed (suc n) t (failed_attempt now a)
      × (ltb now (failed_attempt now a).blocked_until ≡ true → n < 4 → ⊥)
      × (4 ≤ n → (failed_attempt now a).blocked_until ≡ now + login_lockout_duration)
unfolding failed_attempt
failed_attempt-Failed n t now a positive within v =
    let open_window : leb (a.first_failure + login_failure_window) now ≡ false =
      ground (arith, v.since) in
    let begun : (a.first_failure == 0) ≡ false = ground (arith, v.since) in
    (
      record {
        counted = ground (arith, v.counted, open_window, begun);
        since = ground (arith, v.since, open_window, begun);
        free = λ h. ground (arith, v.counted, v.free, open_window, begun);
      },
      (λ blocked few. ground (arith, v.counted, v.free, open_window, begun)),
      (λ many. ground (arith, v.counted, open_window, begun)),
    )

Failed-live :
    (n t now : ℕ) (client : String) (a : LoginAttempt) (l : LoginRateLimiter)
    → 0 < t
    → now < t + login_failure_window
    → Failed n t a
    → lookup client l.attempts ≡ some a
    → lookup client (prune_expired now l).attempts ≡ some a
unfolding prune_expired is_expired
Failed-live n t now client a l positive within v found =
    lookup-prune_attempts now client a l.attempts found (ground (arith, v.since))

record_failure-Failed :
    (n t now : ℕ) (client : String) (a : LoginAttempt) (l : LoginRateLimiter)
    → 0 < t
    → now < t + login_failure_window
    → Failed n t a
    → lookup client l.attempts ≡ some a
    → lookup client (record_failure client now l).0.attempts ≡ some (failed_attempt now a)
unfolding attempt_of
record_failure-Failed n t now client a l positive within v found =
    lookup-record_failure client now l
    ∙ ap (λ o. some (failed_attempt now (attempt_of o)))
        (Failed-live n t now client a l positive within v found)

failures_at-Failed :
    (n t : ℕ) (client : String) (ts : List ℕ) (a : LoginAttempt) (l : LoginRateLimiter)
    → 0 < t
    → All (λ u. u < t + login_failure_window) ts
    → Failed n t a
    → lookup client l.attempts ≡ some a
    → (b : LoginAttempt) × (lookup client (failures_at client ts l).attempts ≡ some b)
      × Failed (n + length ts) t b
unfolding failures_at
failures_at-Failed n t client [] a l positive within v found = (
  a,
  found,
  record { counted = omega (arith, v.counted); since = v.since; free = λ h. v.free (omega arith) },
)
failures_at-Failed n t client (u ∷ ts) a l positive within v found =
    let (b, there, w) =
      failures_at-Failed (suc n) t client ts (failed_attempt u a) (record_failure client u l).0
        positive within.1 (failed_attempt-Failed n t u a positive within.0 v).0
        (record_failure-Failed n t u client a l positive within.0 v found) in
    (
      b,
      there,
      record {
        counted = omega (arith, w.counted);
        since = w.since;
        free = λ h. w.free (omega arith);
      },
    )

failed_attempt-Failed_first : (t : ℕ) → Failed 1 t (failed_attempt t (attempt_of none))
unfolding failed_attempt attempt_of
failed_attempt-Failed_first t = record {
  counted = ground arith;
  since = ground arith;
  free = λ h. ground arith;
}

record_failure-blocks :
    (n t now : ℕ) (client : String) (a : LoginAttempt) (l : LoginRateLimiter)
    → 0 < t
    → now < t + login_failure_window
    → Failed n t a
    → lookup client l.attempts ≡ some a
    → (record_failure client now l).1 ≡ leb 4 n
unfolding record_failure attempt_of
record_failure-blocks n t now client a l positive within v found =
    let (_, few, many) = failed_attempt-Failed n t now a positive within v in
    rw (Failed-live n t now client a l positive within v found) (ground (arith, few, many))

-- From a limiter that does not know the client (any longer), with a first failure at t and others
-- within a minute of it: one more in that minute locks the client out exactly if it is the fifth
-- or a later one.
pub fifth_failure_locks :
    (client : String) (t now : ℕ) (ts : List ℕ) (l : LoginRateLimiter)
    → 0 < t
    → All (λ u. u < t + login_failure_window) ts
    → now < t + login_failure_window
    → lookup client (prune_expired t l).attempts ≡ none
    → (record_failure client now (failures_at client (t ∷ ts) l)).1 ≡ leb 5 (2 + length ts)
unfolding failures_at
fifth_failure_locks client t now ts l positive within soon unknown =
    let first : lookup client (record_failure client t l).0.attempts
        ≡ some (failed_attempt t (attempt_of none)) =
      lookup-record_failure client t l ∙ ap (λ o. some (failed_attempt t (attempt_of o))) unknown in
    let (b, there, v) =
      failures_at-Failed 1 t client ts (failed_attempt t (attempt_of none))
        (record_failure client t l).0 positive within (failed_attempt-Failed_first t) first in
    record_failure-blocks (1 + length ts) t now client b
      (failures_at client ts (record_failure client t l).0) positive soon v there
    ∙ ground arith
