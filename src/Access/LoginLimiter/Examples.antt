-- ===== src/Access/LoginLimiter/Examples.antt =====
-- A client "c" with four failures in its window.
use emby_panel.Prelude.{
  ℕ, ◌+◌, ◌≤◌, ◌≡◌, ◌≢◌, refl, none, List, [], ◌∷◌, String, arith, leb, length, eq_iff,
}
use emby_panel.Prelude.Maps.{lookup, size}
use emby_panel.Access.LoginLimiter.{
  LoginAttempt, LoginRateLimiter, new_login_rate_limiter_with_limit, record_failure, prune_expired,
  prune_attempts,
}
use emby_panel.Access.LoginLimiter.Bounds.{Call, allows, fails, resets, calls, clients_bounded}
use emby_panel.Access.LoginLimiter.Lockout.{failures_at, fifth_failure_locks}

abbrev client : String
client = "c"

client_named : client ≢ ""
client_named e = absurd (ground (arith, eq_iff "c" ""))

abbrev some_calls : List Call
some_calls = fails client 10 client_named ∷ allows client 20 client_named ∷ resets client ∷ []

clients_bounded_example :
    let l = new_login_rate_limiter_with_limit 2 in
    size (calls some_calls l).attempts ≤ l.max_entries
clients_bounded_example = clients_bounded 2 some_calls

abbrev four_failures : LoginAttempt
four_failures = record { failures = 4; first_failure = 10; blocked_until = 0; last_seen = 40 }

abbrev near_lockout : LoginRateLimiter
near_lockout = record { attempts = (client, four_failures) ∷ []; max_entries = 100 }

abbrev other : String
other = "d"

other_named : other ≢ ""
other_named e = absurd (ground (arith, eq_iff "d" ""))

-- The locked client tries, another fails and is reset.
abbrev meanwhile : List Call
meanwhile = allows client 60 client_named ∷ fails other 70 other_named ∷ resets other ∷ []

abbrev empty : LoginRateLimiter
empty = record { attempts = []; max_entries = 100 }

empty_unknown : lookup client (prune_expired 10 empty).attempts ≡ none
unfolding prune_expired prune_attempts lookup
empty_unknown = refl

abbrev later_failures : List ℕ
later_failures = 20 ∷ 30 ∷ 40 ∷ []

fifth_failure_locks_example :
    (record_failure client 50 (failures_at client (10 ∷ later_failures) empty)).1
    ≡ leb 5 (2 + length later_failures)
fifth_failure_locks_example =
    fifth_failure_locks client 10 50 later_failures empty (ground arith)
      (ground arith, (ground arith, (ground arith, tt))) (ground arith) empty_unknown
