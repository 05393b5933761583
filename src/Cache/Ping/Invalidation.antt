-- ===== src/Cache/Ping/Invalidation.antt =====
-- What a cache of pings serves after an invalidation. `P` is any property of responses, and `n`
-- the number of the flights begun before it: a flight's id is its place in that order.
use mathlib.Core.Path.{subst}
use emby_panel.Prelude.{
  All, ℕ, zero, suc, ◌≤◌, ◌<◌, ◌≡◌, ◌&&◌, ◌==◌, ltb, Option, none, some, List, [], ◌∷◌, take,
  String, str_eq, arith, Bool-cases, Option-cases, inl, inr,
}
use emby_panel.Prelude.Maps.{
  lookup, insert, AllValues, insert-AllValues, delete-AllValues, map-AllValues, lookup-AllValues,
}
use emby_panel.Cache.Ping.{
  PingCache, PingCacheEntry, PingCacheFlight, new_ping_cache, ping_cache_max_entries, find_entry,
  remove_entry, lookup_locked, arrive, publish, finish_flight, invalidate,
}
use emby_panel.Cache.Ping.Flights.{
  Call, looks, arrives, finishes, invalidates, after, run, new_run-IsKept,
}

module _ (P : ℕ → Type 0) (n : ℕ) where
  -- What a flight of the later ones fetched has the property.
  abbrev pub IsFetched : Call → Type 0
  IsFetched (finishes key id (some e) now) = n ≤ id → P e.response
  IsFetched x = Unit

  -- The earlier flights are of an earlier generation.
  abbrev Overtaken : ℕ → PingCacheFlight → Type 0
  Overtaken generation f = f.id < n → f.generation < generation

  record IsRenewed (c : PingCache) : Type 0 where
    responses : All (λ (e : PingCacheEntry). P e.response) c.lru
    begun : n ≤ c.next_id
    overtaken : AllValues (Overtaken c.generation) c.inflight

  All-remove_entry :
      (key : String) (lru : List PingCacheEntry)
      → All (λ (e : PingCacheEntry). P e.response) lru
      → All (λ (e : PingCacheEntry). P e.response) (remove_entry key lru)
  unfolding remove_entry
  All-remove_entry key [] h = tt
  All-remove_entry key (e ∷ rest) h = elim (Bool-cases (str_eq e.key key)) [
    | inl same ↦ rw same h.1
    | inr other ↦ rw other (h.0, All-remove_entry key rest h.1)
  ]

  All-take :
      (k : ℕ) (lru : List PingCacheEntry)
      → All (λ (e : PingCacheEntry). P e.response) lru
      → All (λ (e : PingCacheEntry). P e.response) (take k lru)
  All-take zero lru h = tt
  All-take (suc k) [] h = tt
  All-take (suc k) (e ∷ rest) h = (h.0, All-take k rest h.1)

  All-find_entry :
      (key : String) (lru : List PingCacheEntry) (e : PingCacheEntry)
      → All (λ (x : PingCacheEntry). P x.response) lru
      → find_entry key lru ≡ some e
      → P e.response
  unfolding find_entry
  All-find_entry key [] e h found = absurd (ground arith)
  All-find_entry key (x ∷ rest) e h found = elim (Bool-cases (str_eq x.key key)) [
    | inl same ↦ let it : x ≡ e = ground arith in rw (← it) h.0
    | inr other ↦ All-find_entry key rest e h.1 (rw other at found)
  ]

  lookup_locked-IsRenewed :
      (c : PingCache) (key : String) (now : ℕ) → IsRenewed c → IsRenewed (lookup_locked c key now).0
  unfolding lookup_locked
  lookup_locked-IsRenewed c key now v =
      let rest = All-remove_entry key c.lru v.responses in
      elim (Option-cases (find_entry key c.lru)) [
        | inl missing ↦ rw (lookup_locked, missing) v
        | inr (e, found) ↦ elim (Bool-cases (ltb now e.expires_at)) [
          | inl fresh ↦
              rw (lookup_locked, found, fresh)
                (record {
                  responses = (All-find_entry key c.lru e v.responses found, rest);
                  begun = v.begun;
                  overtaken = v.overtaken;
                })
          | inr stale ↦
              rw (lookup_locked, found, stale)
                (record { responses = rest; begun = v.begun; overtaken = v.overtaken })
        ]
      ]

  with_flight-IsRenewed :
      (c : PingCache) (key : String) (f : PingCacheFlight) (next : ℕ)
      → Overtaken c.generation f
      → n ≤ next
      → IsRenewed c
      → IsRenewed (record c { inflight = insert key f c.inflight; next_id = next })
  with_flight-IsRenewed c key f next old more v = record {
    responses = v.responses;
    begun = more;
    overtaken = insert-AllValues (Overtaken c.generation) key c.inflight old v.overtaken;
  }

  arrive-IsRenewed :
      (c : PingCache) (key : String) (now : ℕ) → IsRenewed c → IsRenewed (arrive c key now).0
  unfolding arrive
  arrive-IsRenewed c key now v =
      let d = (lookup_locked c key now).0 in
      let w = lookup_locked-IsRenewed c key now v in
      elim (Option-cases (lookup_locked c key now).1) [
        | inr (e, hit) ↦ rw (arrive, hit) w
        | inl miss ↦ elim (Option-cases (lookup key d.inflight)) [
          | inr (f, joined) ↦
              rw (arrive, miss, joined)
                (with_flight-IsRenewed d key (record f { waiters = suc f.waiters }) d.next_id
                  (lookup-AllValues (Overtaken d.generation) key d.inflight joined w.overtaken)
                  w.begun w)
          | inl alone ↦
              let f : PingCacheFlight = record {
                id = d.next_id;
                generation = d.generation;
                waiters = 0;
              } in
              rw (arrive, miss, alone)
                (with_flight-IsRenewed d key f (suc d.next_id)
                  (λ early. absurd (omega (arith, w.begun, early))) (omega (arith, w.begun)) w)
        ]
      ]

  -- Only a flight of the present generation publishes, which is one of the later ones.
  All-publish :
      (c : PingCache) (key : String) (f : PingCacheFlight) (entry : Option PingCacheEntry) (now : ℕ)
      → Overtaken c.generation f
      → IsFetched (finishes key f.id entry now)
      → All (λ (e : PingCacheEntry). P e.response) c.lru
      → All (λ (e : PingCacheEntry). P e.response) (publish c key f entry now)
  unfolding publish
  All-publish c key f none now old fetched h = h
  All-publish c key f (some e) now old fetched h =
      elim (Bool-cases (f.generation == c.generation && ltb now e.expires_at)) [
        | inr refused ↦ rw refused h
        | inl fresh ↦
            let late : n ≤ f.id = ground (arith, old) in
            rw fresh (
              All-take ping_cache_max_entries (record e { key = key } ∷ remove_entry key c.lru)
                (fetched late, All-remove_entry key c.lru h))
      ]

  finish_flight-IsRenewed :
      (c : PingCache) (key : String) (id : ℕ) (entry : Option PingCacheEntry) (now : ℕ)
      → IsFetched (finishes key id entry now)
      → IsRenewed c
      → IsRenewed (finish_flight c key id entry now)
  unfolding finish_flight
  finish_flight-IsRenewed c key id entry now fetched v =
      elim (Option-cases (lookup key c.inflight)) [
        | inl gone ↦ rw (finish_flight, gone) v
        | inr (f, found) ↦ elim (Bool-cases (f.id == id)) [
          | inr other ↦ rw (finish_flight, found, other) v
          | inl own ↦
              let same : id ≡ f.id = ground arith in
              let old =
                lookup-AllValues (Overtaken c.generation) key c.inflight found v.overtaken in
              let its : IsFetched (finishes key f.id entry now) =
                subst (λ i. IsFetched (finishes key i entry now)) same fetched in
              rw (finish_flight, found, own)
                (record {
                  responses = All-publish c key f entry now old its v.responses;
                  begun = v.begun;
                  overtaken = delete-AllValues (Overtaken c.generation) key c.inflight v.overtaken;
                })
        ]
      ]

  after-IsRenewed : (c : PingCache) (x : Call) → IsFetched x → IsRenewed c → IsRenewed (after c x)
  unfolding after invalidate
  after-IsRenewed c (looks key now) fetched v = lookup_locked-IsRenewed c key now v
  after-IsRenewed c (arrives key now) fetched v = arrive-IsRenewed c key now v
  after-IsRenewed c (finishes key id entry now) fetched v =
      finish_flight-IsRenewed c key id entry now fetched v
  after-IsRenewed c invalidates fetched v = record {
    responses = tt;
    begun = v.begun;
    overtaken =
        map-AllValues (Overtaken c.generation) (Overtaken (suc c.generation)) c.inflight
          (λ f old early. omega (arith, old early)) v.overtaken;
  }

  run-IsRenewed :
      (c : PingCache) (xs : List Call) → All IsFetched xs → IsRenewed c → IsRenewed (run c xs)
  unfolding run
  run-IsRenewed c [] fetched v = v
  run-IsRenewed c (x ∷ xs) fetched v =
      run-IsRenewed (after c x) xs fetched.1 (after-IsRenewed c x fetched.0 v)

-- What is served has the property.
abbrev pub IsServed : (ℕ → Type 0) → Option PingCacheEntry → Type 0
IsServed P none = Unit
IsServed P (some e) = P e.response

lookup_locked-IsServed :
    (P : ℕ → Type 0) (n : ℕ) (c : PingCache) (key : String) (now : ℕ)
    → IsRenewed P n c
    → IsServed P (lookup_locked c key now).1
unfolding lookup_locked
lookup_locked-IsServed P n c key now v = elim (Option-cases (find_entry key c.lru)) [
  | inl missing ↦ rw (lookup_locked, missing) tt
  | inr (e, found) ↦ elim (Bool-cases (ltb now e.expires_at)) [
    | inl fresh ↦
        rw (lookup_locked, found, fresh) (All-find_entry P n key c.lru e v.responses found)
    | inr stale ↦ rw (lookup_locked, found, stale) tt
  ]
]

-- Once a cache is invalidated, whatever was done to it before and is done to it afterwards, it
-- serves only what flights fetched that began after the invalidation: any property that all the
-- responses of those flights have, whatever the earlier flights still bring, holds of every
-- response that a lookup of any key gives at any time.
pub no_stale_response :
    (P : ℕ → Type 0) (xs ys : List Call) (key : String) (now : ℕ)
    → let c = invalidate (run new_ping_cache xs) in
      All (IsFetched P c.next_id) ys → IsServed P (lookup_locked (run c ys) key now).1
unfolding invalidate
no_stale_response P xs ys key now fetched =
    let c = run new_ping_cache xs in
    let start : IsRenewed P c.next_id (invalidate c) = record {
      responses = tt;
      begun = omega arith;
      overtaken =
          map-AllValues (λ f. f.generation ≤ c.generation)
            (λ f. f.id < c.next_id → f.generation < suc c.generation) c.inflight
            (λ f past early. omega (arith, past)) (new_run-IsKept xs).past;
    } in
    lookup_locked-IsServed P c.next_id (run (invalidate c) ys) key now
      (run-IsRenewed P c.next_id (invalidate c) ys fetched start)
