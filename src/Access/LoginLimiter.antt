-- ===== src/Access/LoginLimiter.antt =====
-- app_http.go: loginRateLimiter, which locks out a client after repeated failures. An instant is a
-- number of nanoseconds, 0 the zero Time, and t.Sub(u) >= d is written u + d <= t.
mod Examples
pub mod Bounds
pub mod Lockout
pub mod Enforcement
use emby_panel.Prelude.{
  ℕ, ◌+◌, ◌-◌, ◌==◌, Bool, true, false, not, ◌&&◌, ◌||◌, Option, none, some, List, [], ◌∷◌, String,
  leb, ltb, str_eq, if◌then◌else◌,
}
use emby_panel.Prelude.Maps.{Map, lookup, insert, delete, size}

abbrev pub max_login_failures : ℕ
max_login_failures = 5

abbrev pub max_tracked_login_clients : ℕ
max_tracked_login_clients = 10000

-- Both are a minute.
abbrev pub login_failure_window : ℕ
login_failure_window = 60000000000

abbrev pub login_lockout_duration : ℕ
login_lockout_duration = 60000000000

pub record LoginAttempt : Type 0 where
  pub failures : ℕ
  pub first_failure : ℕ
  pub blocked_until : ℕ
  pub last_seen : ℕ

pub record LoginRateLimiter : Type 0 where
  pub attempts : Map LoginAttempt
  pub max_entries : ℕ

unfoldable pub new_login_rate_limiter_with_limit : ℕ → LoginRateLimiter
new_login_rate_limiter_with_limit max_entries = record {
  attempts = [];
  max_entries = if ltb max_entries 1 then 1 else max_entries;
}

unfoldable pub new_login_rate_limiter : LoginRateLimiter
unfolding new_login_rate_limiter_with_limit
new_login_rate_limiter = new_login_rate_limiter_with_limit max_tracked_login_clients

pub is_expired : ℕ → LoginAttempt → Bool
is_expired now a =
    not (ltb now a.blocked_until)
    && (a.first_failure == 0 || not (ltb now (a.first_failure + login_failure_window)))

-- for client, attempt := range l.attempts, where an entry deletes only itself.
pub prune_attempts : ℕ → Map LoginAttempt → Map LoginAttempt
prune_attempts now [] = []
prune_attempts now ((client, a) ∷ m) =
    let rest = prune_attempts now m in if is_expired now a then rest else (client, a) ∷ rest

pub prune_expired : ℕ → LoginRateLimiter → LoginRateLimiter
prune_expired now l = record l { attempts = prune_attempts now l.attempts }

seen_at : LoginAttempt → ℕ
seen_at a = if a.last_seen == 0 then a.first_failure else a.last_seen

-- The loop of evictLeastRecentlySeen, with the oldest client so far and when it was seen.
pub oldest_client : String → ℕ → Map LoginAttempt → String
unfolding seen_at
oldest_client oldest oldest_seen [] = oldest
oldest_client oldest oldest_seen ((client, a) ∷ m) =
    if str_eq oldest "" || ltb (seen_at a) oldest_seen
    then oldest_client client (seen_at a) m
    else oldest_client oldest oldest_seen m

pub evict_least_recently_seen : LoginRateLimiter → LoginRateLimiter
evict_least_recently_seen l =
    let oldest = oldest_client "" 0 l.attempts in
    if not (str_eq oldest "") then record l { attempts = delete oldest l.attempts } else l

pub put_attempt : String → LoginAttempt → LoginRateLimiter → LoginRateLimiter
put_attempt client a l = record l { attempts = insert client a l.attempts }

-- The body of allow after the pruning: whether the client may try, and how long it has to wait.
pub allow_at : String → ℕ → Option LoginAttempt → LoginRateLimiter → LoginRateLimiter × Bool × ℕ
allow_at client now none l = (l, true, 0)
allow_at client now (some a) l =
    let l' = put_attempt client (record a { last_seen = now }) l in
    if ltb now a.blocked_until then (l', false, a.blocked_until - now) else (l', true, 0)

unfoldable pub allow : String → ℕ → LoginRateLimiter → LoginRateLimiter × Bool × ℕ
unfolding allow_at
allow client now l =
    let l' = prune_expired now l in allow_at client now (lookup client l'.attempts) l'

-- attempt, exists := l.attempts[client]
pub attempt_of : Option LoginAttempt → LoginAttempt
attempt_of none = record { failures = 0; first_failure = 0; blocked_until = 0; last_seen = 0 }
attempt_of (some a) = a

is_missing : Option LoginAttempt → Bool
is_missing none = true
is_missing (some _) = false

-- The new entry of the client.
pub failed_attempt : ℕ → LoginAttempt → LoginAttempt
failed_attempt now a =
    let counted =
      if a.first_failure == 0 || leb (a.first_failure + login_failure_window) now
      then record { failures = 0; first_failure = now; blocked_until = 0; last_seen = 0 }
      else a in
    let next = record counted { failures = counted.failures + 1; last_seen = now } in
    if leb max_login_failures next.failures
    then record next { blocked_until = now + login_lockout_duration }
    else next

pub make_room : Option LoginAttempt → LoginRateLimiter → LoginRateLimiter
unfolding is_missing
make_room entry l =
    if is_missing entry && leb l.max_entries (size l.attempts)
    then evict_least_recently_seen l
    else l

unfoldable pub record_failure : String → ℕ → LoginRateLimiter → LoginRateLimiter × Bool × ℕ
record_failure client now l =
    let l' = prune_expired now l in
    let entry = lookup client l'.attempts in
    let next = failed_attempt now (attempt_of entry) in
    let blocked = ltb now next.blocked_until in
    (
      put_attempt client next (make_room entry l'),
      blocked,
      if blocked then next.blocked_until - now else 0,
    )

unfoldable pub reset : String → LoginRateLimiter → LoginRateLimiter
reset client l = record l { attempts = delete client l.attempts }
