-- ===== src/Access/LoginLimiter/Enforcement.antt =====
-- A lockout lasts: what happens to the entry of a client that is locked out.
use emby_panel.Prelude.{ℕ, ◌+◌, ◌≤◌, ◌<◌, ◌≡◌, false, some, String, str_eq}
use emby_panel.Prelude.Maps.{lookup, size}
use emby_panel.Access.LoginLimiter.{LoginAttempt, LoginRateLimiter}
use emby_panel.Access.LoginLimiter.Bounds.{Call, allows, fails, resets}

-- The client is locked out until `end`, and there is room for `rest` more clients.
record Locked (client : String) (end rest : ℕ) (l : LoginRateLimiter) : Type 0 where
  entry : LoginAttempt
  found : lookup client l.attempts ≡ some entry
  until : entry.blocked_until ≡ end
  room : size l.attempts + rest ≤ l.max_entries

-- Calls while the lockout lasts: any client may try, any other may fail or be reset.
abbrev pub IsDuring : String → ℕ → Call → Type 0
IsDuring client end (allows other t named) = t < end
IsDuring client end (fails other t named) = (t < end) × (str_eq other client ≡ false)
IsDuring client end (resets other) = str_eq other client ≡ false
