-- ===== src/Access/LoginLimiter/Bounds.antt =====
-- The limiter never tracks more clients than its limit.
use emby_panel.Prelude.{
  ℕ, ◌+◌, ◌≤◌, ◌≡◌, ◌≢◌, ◌⊎◌, ◌-◌, ◌∙◌, refl, false, none, some, List, [], ◌∷◌, String, arith,
  str_eq, eq_iff, Bool-cases, Option-cases, inl, inr, leb, ltb, ◌||◌, if◌then◌else◌,
}
use emby_panel.Prelude.Maps.{
  Map, lookup, size, HasDistinctKeys, insert-HasDistinctKeys, delete-HasDistinctKeys, lookup-insert,
  lookup-delete_ne, total-insert_new, total-insert_old, total-delete, delete_absent,
}
use emby_panel.Access.LoginLimiter.{
  LoginAttempt, LoginRateLimiter, new_login_rate_limiter_with_limit, prune_attempts, prune_expired,
  seen_at, oldest_client, evict_least_recently_seen, put_attempt, allow_at, allow, attempt_of,
  is_missing, failed_attempt, make_room, record_failure, reset,
}

-- No client is the empty text, as requestClientKey never returns it.
pub record Tracks (max n : ℕ) (l : LoginRateLimiter) : Type 0 where
  pub limit : l.max_entries ≡ max
  pub distinct : HasDistinctKeys l.attempts
  pub named : lookup "" l.attempts ≡ none
  pub room : 1 ≤ max
  pub few : size l.attempts ≤ n

lookup-prune_attempts :
    (now : ℕ) (k : String) (m : Map LoginAttempt)
    → lookup k m ≡ none
    → lookup k (prune_attempts now m) ≡ none
unfolding lookup prune_attempts
lookup-prune_attempts now k [] h = refl
lookup-prune_attempts now k ((c, a) ∷ m) h = ground (arith, lookup-prune_attempts now k m)

prune_attempts-HasDistinctKeys :
    (now : ℕ) (m : Map LoginAttempt) → HasDistinctKeys m → HasDistinctKeys (prune_attempts now m)
unfolding prune_attempts
prune_attempts-HasDistinctKeys now [] h = tt
prune_attempts-HasDistinctKeys now ((c, a) ∷ m) h =
    ground (arith, lookup-prune_attempts now c m, prune_attempts-HasDistinctKeys now m h.1)

pub size-prune_attempts : (now : ℕ) (m : Map LoginAttempt) → size (prune_attempts now m) ≤ size m
unfolding prune_attempts
size-prune_attempts now [] = ground arith
size-prune_attempts now ((c, a) ∷ m) = ground (arith, size-prune_attempts now m)

prune_expired-Tracks :
    (now max n : ℕ) (l : LoginRateLimiter) → Tracks max n l → Tracks max n (prune_expired now l)
unfolding prune_expired
prune_expired-Tracks now max n l v = record {
  distinct = prune_attempts-HasDistinctKeys now l.attempts v.distinct;
  named = lookup-prune_attempts now "" l.attempts v.named;
  limit = v.limit;
  room = v.room;
  few = omega (arith, size-prune_attempts now l.attempts, v.few);
}

-- The map has an entry for the client.
abbrev Has : String → Map LoginAttempt → Type 0
Has k m = (a : LoginAttempt) × (lookup k m ≡ some a)

Has-cons : (k c : String) (a : LoginAttempt) (m : Map LoginAttempt) → Has k m → Has k ((c, a) ∷ m)
unfolding lookup
Has-cons k c a m (b, found) = elim (Bool-cases (str_eq c k)) [
  | inl own ↦ (a, ground arith)
  | inr other ↦ (b, ground arith)
]

Has-head : (k c : String) (a : LoginAttempt) (m : Map LoginAttempt) → k ≡ c → Has k ((c, a) ∷ m)
unfolding lookup
Has-head k c a m e = (a, ground (arith, eq_iff c k))

named_tail :
    (c : String) (a : LoginAttempt) (m : Map LoginAttempt)
    → lookup "" ((c, a) ∷ m) ≡ none
    → (str_eq c "" ≡ false) × (lookup "" m ≡ none)
unfolding lookup
named_tail c a m h = (ground arith, ground arith)

-- The loop ends with the client that it started with, or with one of the map.
oldest_client_found :
    (oldest : String) (seen : ℕ) (m : Map LoginAttempt)
    → lookup "" m ≡ none
    → str_eq oldest "" ≡ false
    → (oldest_client oldest seen m ≡ oldest) ⊎ Has (oldest_client oldest seen m) m
unfolding oldest_client
oldest_client_found oldest seen [] named given = inl refl
oldest_client_found oldest seen ((c, a) ∷ m) named given =
    let (own, rest) = named_tail c a m named in
    elim (Bool-cases (str_eq oldest "" || ltb (seen_at a) seen)) [
      | inl older ↦ rw older (elim (oldest_client_found c (seen_at a) m rest own) [
        | inl e ↦ inr (Has-head (oldest_client c (seen_at a) m) c a m e)
        | inr h ↦ inr (Has-cons (oldest_client c (seen_at a) m) c a m h)
      ])
      | inr newer ↦ rw newer (elim (oldest_client_found oldest seen m rest given) [
        | inl e ↦ inl e
        | inr h ↦ inr (Has-cons (oldest_client oldest seen m) c a m h)
      ])
    ]

oldest_client_named :
    (oldest : String) (seen : ℕ) (m : Map LoginAttempt)
    → lookup "" m ≡ none
    → str_eq oldest "" ≡ false
    → str_eq (oldest_client oldest seen m) "" ≡ false
unfolding oldest_client
oldest_client_named oldest seen [] named given = given
oldest_client_named oldest seen ((c, a) ∷ m) named given =
    let (own, rest) = named_tail c a m named in
    ground (
      arith,
      oldest_client_named c (seen_at a) m rest own,
      oldest_client_named oldest seen m rest given,
    )

evict-Tracks_entries :
    (max n entries : ℕ) (m : Map LoginAttempt)
    → let l : LoginRateLimiter = record { attempts = m; max_entries = entries } in
      Tracks max n l → 1 ≤ size m → Tracks max (n - 1) (evict_least_recently_seen l)
unfolding evict_least_recently_seen oldest_client
evict-Tracks_entries max n entries [] v some_tracked = absurd (omega (arith, some_tracked))
evict-Tracks_entries max n entries ((c, a) ∷ m) v some_tracked =
    let (own, rest) = named_tail c a m v.named in
    let key = oldest_client c (seen_at a) m in
    let whole : Map LoginAttempt = (c, a) ∷ m in
    let named = oldest_client_named c (seen_at a) m rest own in
    let (b, found) : Has key whole = elim (oldest_client_found c (seen_at a) m rest own) [
      | inl e ↦ Has-head key c a m e
      | inr h ↦ Has-cons key c a m h
    ] in
    rw named (record {
      distinct = delete-HasDistinctKeys key whole v.distinct;
      named = lookup-delete_ne key "" whole named ∙ v.named;
      limit = v.limit;
      room = v.room;
      few = omega (arith, total-delete (λ _. 1) key b whole found, v.few);
    })

evict-Tracks :
    (max n : ℕ) (l : LoginRateLimiter)
    → Tracks max n l
    → 1 ≤ size l.attempts
    → Tracks max (n - 1) (evict_least_recently_seen l)
evict-Tracks max n l = evict-Tracks_entries max n l.max_entries l.attempts

put_attempt-Tracks_old :
    (client : String) (old a : LoginAttempt) (max n : ℕ) (l : LoginRateLimiter)
    → client ≢ ""
    → lookup client l.attempts ≡ some old
    → Tracks max n l
    → Tracks max n (put_attempt client a l)
unfolding put_attempt
put_attempt-Tracks_old client old a max n l named found v = record {
  distinct = insert-HasDistinctKeys client a l.attempts v.distinct;
  named = ground (arith, lookup-insert client "" a l.attempts, eq_iff client "", v.named);
  limit = v.limit;
  room = v.room;
  few = omega (arith, total-insert_old (λ _. 1) client old a l.attempts found, v.few);
}

put_attempt-Tracks_new :
    (client : String) (a : LoginAttempt) (max n k : ℕ) (l : LoginRateLimiter)
    → client ≢ ""
    → lookup client l.attempts ≡ none
    → Tracks max n l
    → n + 1 ≤ k
    → Tracks max k (put_attempt client a l)
unfolding put_attempt
put_attempt-Tracks_new client a max n k l named missing v more = record {
  distinct = insert-HasDistinctKeys client a l.attempts v.distinct;
  named = ground (arith, lookup-insert client "" a l.attempts, eq_iff client "", v.named);
  limit = v.limit;
  room = v.room;
  few = omega (arith, total-insert_new (λ _. 1) client a l.attempts missing, v.few);
}

-- Eviction forgets entries only.
evict-missing :
    (client : String) (l : LoginRateLimiter)
    → HasDistinctKeys l.attempts
    → lookup client l.attempts ≡ none
    → lookup client (evict_least_recently_seen l).attempts ≡ none
unfolding evict_least_recently_seen
evict-missing client l d missing =
    let key = oldest_client "" 0 l.attempts in
    ground (
      arith,
      lookup-delete_ne key client l.attempts,
      eq_iff key client,
      delete_absent client l.attempts,
    )

allow-Tracks :
    (client : String) (now max n : ℕ) (l : LoginRateLimiter)
    → client ≢ ""
    → Tracks max n l
    → Tracks max n (allow client now l).0
unfolding allow allow_at
allow-Tracks client now max n l named v =
    let l' = prune_expired now l in
    let v' = prune_expired-Tracks now max n l v in
    elim (Option-cases (lookup client l'.attempts)) [
      | inl missing ↦ rw missing v'
      | inr (a, found) ↦
          let put =
            put_attempt-Tracks_old client a (record a { last_seen = now }) max n l' named found
              v' in
          elim (Bool-cases (ltb now a.blocked_until)) [
            | inl blocked ↦ rw (found, blocked) put
            | inr free ↦ rw (found, free) put
          ]
    ]

record_failure-Tracks :
    (client : String) (now max : ℕ) (l : LoginRateLimiter)
    → client ≢ ""
    → Tracks max max l
    → Tracks max max (record_failure client now l).0
unfolding record_failure make_room is_missing attempt_of
record_failure-Tracks client now max l named v =
    let l' = prune_expired now l in
    let v' = prune_expired-Tracks now max max l v in
    elim (Option-cases (lookup client l'.attempts)) [
      | inr (a, found) ↦
          rw found
            (put_attempt-Tracks_old client a (failed_attempt now a) max max l' named found v')
      | inl missing ↦
          let next = failed_attempt now (attempt_of none) in
          elim (Bool-cases (leb l'.max_entries (size l'.attempts))) [
            | inl full ↦
                rw (missing, full)
                  (put_attempt-Tracks_new client next max (max - 1) max
                    (evict_least_recently_seen l') named
                    (evict-missing client l' v'.distinct missing)
                    (evict-Tracks max max l' v' (ground (arith, v'.limit, v'.room)))
                    (ground (arith, v'.room)))
            | inr free ↦
                rw (missing, free)
                  (put_attempt-Tracks_new client next max (size l'.attempts) max l' named missing
                    (record {
                      distinct = v'.distinct;
                      named = v'.named;
                      limit = v'.limit;
                      room = v'.room;
                      few = ground arith;
                    })
                    (ground (arith, v'.limit)))
          ]
    ]

reset-Tracks :
    (client : String) (max n : ℕ) (l : LoginRateLimiter)
    → Tracks max n l
    → Tracks max n (reset client l)
unfolding reset
reset-Tracks client max n l v = record {
  distinct = delete-HasDistinctKeys client l.attempts v.distinct;
  named = elim (Bool-cases (str_eq client "")) [
    | inl own ↦ ground (arith, eq_iff client "", delete_absent client l.attempts, v.named)
    | inr other ↦ lookup-delete_ne client "" l.attempts other ∙ v.named
  ];
  limit = v.limit;
  room = v.room;
  few = elim (Option-cases (lookup client l.attempts)) [
    | inl missing ↦ ground (arith, delete_absent client l.attempts, v.few)
    | inr (a, found) ↦ omega (arith, total-delete (λ _. 1) client a l.attempts found, v.few)
  ];
}

-- What the login handler does with the limiter.
pub data Call : Type 0 where
  allows fails : (client : String) (now : ℕ) → client ≢ "" → Call
  resets : (client : String) → Call

unfoldable pub call : Call → LoginRateLimiter → LoginRateLimiter
call (allows client now named) l = (allow client now l).0
call (fails client now named) l = (record_failure client now l).0
call (resets client) l = reset client l

unfoldable pub calls : List Call → LoginRateLimiter → LoginRateLimiter
calls [] l = l
calls (c ∷ cs) l = calls cs (call c l)

call-Tracks :
    (c : Call) (max : ℕ) (l : LoginRateLimiter) → Tracks max max l → Tracks max max (call c l)
unfolding call
call-Tracks (allows client now named) max l v = allow-Tracks client now max max l named v
call-Tracks (fails client now named) max l v = record_failure-Tracks client now max l named v
call-Tracks (resets client) max l v = reset-Tracks client max max l v

calls-Tracks :
    (cs : List Call) (max : ℕ) (l : LoginRateLimiter)
    → Tracks max max l
    → Tracks max max (calls cs l)
unfolding calls
calls-Tracks [] max l v = v
calls-Tracks (c ∷ cs) max l v = calls-Tracks cs max (call c l) (call-Tracks c max l v)

-- A new limiter never tracks more clients than its limit (at least 1), whatever clients with a
-- name try, fail and are reset, in any order and at any times.
pub clients_bounded :
    (limit : ℕ) (cs : List Call)
    → let l = new_login_rate_limiter_with_limit limit in size (calls cs l).attempts ≤ l.max_entries
unfolding new_login_rate_limiter_with_limit lookup
clients_bounded limit cs =
    let max = if ltb limit 1 then 1 else limit in
    let l : LoginRateLimiter = record { attempts = []; max_entries = max } in
    (calls-Tracks cs max l (record {
      distinct = tt;
      named = refl;
      limit = refl;
      room = ground arith;
      few = omega arith;
    })).few
