-- ===== src/Cache/Ping/Flights.antt =====
-- The histories of a cache of pings.
use emby_panel.Prelude.{
  ℕ, zero, suc, ◌≤◌, ◌≡◌, refl, ◌&&◌, ◌==◌, ltb, Option, none, some, List, [], ◌∷◌, length, take,
  length-take, String, str_eq, eq_iff, arith, Bool-cases, Option-cases, inl, inr,
}
use emby_panel.Prelude.Maps.{
  lookup, insert, HasDistinctKeys, insert-HasDistinctKeys, delete-HasDistinctKeys, AllValues,
  insert-AllValues, delete-AllValues, map-AllValues, lookup-AllValues,
}
use emby_panel.Cache.Ping.{
  PingCache, PingCacheEntry, PingCacheFlight, new_ping_cache, ping_cache_max_entries, find_entry,
  remove_entry, lookup_locked, arrive, publish, finish_flight, invalidate,
}

-- No key stands twice.
pub HasDistinctEntries : List PingCacheEntry → Type 0
HasDistinctEntries [] = Unit
HasDistinctEntries (e ∷ rest) = (find_entry e.key rest ≡ none) × HasDistinctEntries rest

remove_entry-find_entry :
    (key j : String) (lru : List PingCacheEntry)
    → find_entry j lru ≡ none
    → find_entry j (remove_entry key lru) ≡ none
unfolding find_entry remove_entry
remove_entry-find_entry key j [] h = refl
remove_entry-find_entry key j (e ∷ rest) h = ground (arith, remove_entry-find_entry key j rest)

remove_entry-HasDistinctEntries :
    (key : String) (lru : List PingCacheEntry)
    → HasDistinctEntries lru
    → HasDistinctEntries (remove_entry key lru) × (find_entry key (remove_entry key lru) ≡ none)
unfolding HasDistinctEntries find_entry remove_entry
remove_entry-HasDistinctEntries key [] h = (tt, refl)
remove_entry-HasDistinctEntries key (e ∷ rest) (fresh, h) =
    let (d, gone) = remove_entry-HasDistinctEntries key rest h in
    elim (Bool-cases (str_eq e.key key)) [
      | inl same ↦ rw same (h, ground (arith, eq_iff e.key key))
      | inr other ↦ rw (other, other) ((remove_entry-find_entry key e.key rest fresh, d), gone)
    ]

take-find_entry :
    (n : ℕ) (j : String) (lru : List PingCacheEntry)
    → find_entry j lru ≡ none
    → find_entry j (take n lru) ≡ none
unfolding find_entry
take-find_entry zero j lru h = refl
take-find_entry (suc n) j [] h = refl
take-find_entry (suc n) j (e ∷ rest) h = ground (arith, take-find_entry n j rest)

take-HasDistinctEntries :
    (n : ℕ) (lru : List PingCacheEntry) → HasDistinctEntries lru → HasDistinctEntries (take n lru)
unfolding HasDistinctEntries
take-HasDistinctEntries zero lru h = tt
take-HasDistinctEntries (suc n) [] h = tt
take-HasDistinctEntries (suc n) (e ∷ rest) (fresh, h) =
    (take-find_entry n e.key rest fresh, take-HasDistinctEntries n rest h)

pub remove_entry-length :
    (key : String) (lru : List PingCacheEntry) (e : PingCacheEntry)
    → find_entry key lru ≡ some e
    → length lru ≡ suc (length (remove_entry key lru))
unfolding find_entry remove_entry
remove_entry-length key [] e h = ground arith
remove_entry-length key (x ∷ rest) e h = ground (arith, remove_entry-length key rest e)

pub remove_entry-shorter :
    (key : String) (lru : List PingCacheEntry) → length (remove_entry key lru) ≤ length lru
unfolding remove_entry
remove_entry-shorter key [] = omega arith
remove_entry-shorter key (x ∷ rest) = ground (arith, remove_entry-shorter key rest)

find_entry-key :
    (key : String) (lru : List PingCacheEntry) (e : PingCacheEntry)
    → find_entry key lru ≡ some e
    → e.key ≡ key
unfolding find_entry
find_entry-key key [] e h = ground arith
find_entry-key key (x ∷ rest) e h = ground (arith, eq_iff x.key key, find_entry-key key rest e)

-- The calls on a cache, with any arguments.
pub data Call : Type 0 where
  looks arrives : String → ℕ → Call
  finishes : String → ℕ → Option PingCacheEntry → ℕ → Call
  invalidates : Call

unfoldable pub after : PingCache → Call → PingCache
after c (looks key now) = (lookup_locked c key now).0
after c (arrives key now) = (arrive c key now).0
after c (finishes key id entry now) = finish_flight c key id entry now
after c invalidates = invalidate c

unfoldable pub run : PingCache → List Call → PingCache
unfolding after
run c [] = c
run c (x ∷ xs) = run (after c x) xs

pub record IsKept (c : PingCache) : Type 0 where
  pub bounded : length c.lru ≤ ping_cache_max_entries
  pub distinct : HasDistinctEntries c.lru
  pub one_flight : HasDistinctKeys c.inflight
  pub past : AllValues (λ f. f.generation ≤ c.generation) c.inflight

lookup_locked-IsKept :
    (c : PingCache) (key : String) (now : ℕ) → IsKept c → IsKept (lookup_locked c key now).0
unfolding lookup_locked HasDistinctEntries
lookup_locked-IsKept c key now v =
    let (d, gone) = remove_entry-HasDistinctEntries key c.lru v.distinct in
    elim (Option-cases (find_entry key c.lru)) [
      | inl missing ↦ rw (lookup_locked, missing) v
      | inr (e, found) ↦
          let shorter = remove_entry-length key c.lru e found in
          elim (Bool-cases (ltb now e.expires_at)) [
            | inl fresh ↦
                rw (lookup_locked, found, fresh)
                  (record {
                    bounded = omega (arith, shorter, v.bounded);
                    distinct = (rw (find_entry-key key c.lru e found) gone, d);
                    one_flight = v.one_flight;
                    past = v.past;
                  })
            | inr stale ↦
                rw (lookup_locked, found, stale)
                  (record {
                    bounded = omega (arith, shorter, v.bounded);
                    distinct = d;
                    one_flight = v.one_flight;
                    past = v.past;
                  })
          ]
    ]

with_flight-IsKept :
    (c : PingCache) (key : String) (f : PingCacheFlight) (n : ℕ)
    → f.generation ≤ c.generation
    → IsKept c
    → IsKept (record c { inflight = insert key f c.inflight; next_id = n })
with_flight-IsKept c key f n old v = record {
  bounded = v.bounded;
  distinct = v.distinct;
  one_flight = insert-HasDistinctKeys key f c.inflight v.one_flight;
  past = insert-AllValues (λ f. f.generation ≤ c.generation) key c.inflight old v.past;
}

arrive-IsKept : (c : PingCache) (key : String) (now : ℕ) → IsKept c → IsKept (arrive c key now).0
unfolding arrive
arrive-IsKept c key now v =
    let d = (lookup_locked c key now).0 in
    let w = lookup_locked-IsKept c key now v in
    elim (Option-cases (lookup_locked c key now).1) [
      | inr (e, hit) ↦ rw (arrive, hit) w
      | inl miss ↦ elim (Option-cases (lookup key d.inflight)) [
        | inr (f, joined) ↦
            rw (arrive, miss, joined)
              (with_flight-IsKept d key (record f { waiters = suc f.waiters }) d.next_id
                (lookup-AllValues (λ f. f.generation ≤ d.generation) key d.inflight joined w.past)
                w)
        | inl alone ↦
            let f : PingCacheFlight = record {
              id = d.next_id;
              generation = d.generation;
              waiters = 0;
            } in
            rw (arrive, miss, alone) (with_flight-IsKept d key f (suc d.next_id) (omega arith) w)
      ]
    ]

publish-IsKept :
    (c : PingCache) (key : String) (f : PingCacheFlight) (entry : Option PingCacheEntry) (now : ℕ)
    → IsKept c
    → (length (publish c key f entry now) ≤ ping_cache_max_entries)
      × HasDistinctEntries (publish c key f entry now)
unfolding publish HasDistinctEntries
publish-IsKept c key f none now v = (v.bounded, v.distinct)
publish-IsKept c key f (some e) now v =
    let (d, gone) = remove_entry-HasDistinctEntries key c.lru v.distinct in
    elim (Bool-cases (f.generation == c.generation && ltb now e.expires_at)) [
      | inr refused ↦ rw refused (v.bounded, v.distinct)
      | inl fresh ↦
          let lru = record e { key = key } ∷ remove_entry key c.lru in
          rw fresh (
            omega (arith, length-take ping_cache_max_entries lru),
            take-HasDistinctEntries ping_cache_max_entries lru (gone, d),
          )
    ]

finish_flight-IsKept :
    (c : PingCache) (key : String) (id : ℕ) (entry : Option PingCacheEntry) (now : ℕ)
    → IsKept c
    → IsKept (finish_flight c key id entry now)
unfolding finish_flight
finish_flight-IsKept c key id entry now v = elim (Option-cases (lookup key c.inflight)) [
  | inl gone ↦ rw (finish_flight, gone) v
  | inr (f, found) ↦ elim (Bool-cases (f.id == id)) [
    | inr other ↦ rw (finish_flight, found, other) v
    | inl own ↦
        let (bounded, distinct) = publish-IsKept c key f entry now v in
        rw (finish_flight, found, own)
          (record {
            bounded = bounded;
            distinct = distinct;
            one_flight = delete-HasDistinctKeys key c.inflight v.one_flight;
            past = delete-AllValues (λ f. f.generation ≤ c.generation) key c.inflight v.past;
          })
  ]
]

after-IsKept : (c : PingCache) (x : Call) → IsKept c → IsKept (after c x)
unfolding after invalidate HasDistinctEntries
after-IsKept c (looks key now) v = lookup_locked-IsKept c key now v
after-IsKept c (arrives key now) v = arrive-IsKept c key now v
after-IsKept c (finishes key id entry now) v = finish_flight-IsKept c key id entry now v
after-IsKept c invalidates v = record {
  bounded = omega arith;
  distinct = tt;
  one_flight = v.one_flight;
  past =
      map-AllValues (λ f. f.generation ≤ c.generation) (λ f. f.generation ≤ suc c.generation)
        c.inflight (λ f h. omega (arith, h)) v.past;
}

run-IsKept : (c : PingCache) (xs : List Call) → IsKept c → IsKept (run c xs)
unfolding run
run-IsKept c [] v = v
run-IsKept c (x ∷ xs) v = run-IsKept (after c x) xs (after-IsKept c x v)

-- In every history of a new cache of pings it has at most 256 entries, one for a key, at most one
-- flight for a key, and no flight of a generation that is still to come.
pub new_run-IsKept : (xs : List Call) → IsKept (run new_ping_cache xs)
unfolding new_ping_cache HasDistinctEntries
new_run-IsKept xs =
    run-IsKept new_ping_cache xs
      (record { bounded = omega arith; distinct = tt; one_flight = tt; past = tt })
