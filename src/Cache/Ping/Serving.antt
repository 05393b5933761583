-- ===== src/Cache/Ping/Serving.antt =====
-- Until when a cache of pings serves what was fetched.
use emby_panel.Prelude.{
  All, ℕ, zero, suc, ◌+◌, ◌≤◌, ◌<◌, ◌≡◌, ◌∙◌, refl, true, false, ◌&&◌, ◌==◌, ltb, Option, none,
  some, List, [], ◌∷◌, length, take, String, str_eq, eq_iff, eq_refl, arith, Bool-cases,
  Option-cases, inl, inr, if◌then◌else◌,
}
use emby_panel.Prelude.Maps.{lookup}
use emby_panel.Cache.Ping.{
  PingCache, PingCacheEntry, PingCacheFlight, ping_cache_max_entries, find_entry, remove_entry,
  lookup_locked, arrive, publish, finish_flight,
}
use emby_panel.Cache.Ping.Flights.{
  Call, looks, arrives, finishes, invalidates, after, run, remove_entry-length,
  remove_entry-shorter,
}

-- The key's entry is there, and there is room for `rest` more.
record Holds (key : String) (given : PingCacheEntry) (rest : ℕ) (c : PingCache) : Type 0 where
  held : find_entry key c.lru ≡ some given
  room : length c.lru + rest ≤ ping_cache_max_entries

-- Calls that do not end an entry of `key` that expires at `end`: lookups and requests of any keys,
-- those of the key itself before `end`, and the ends of the flights of other keys.
abbrev pub IsHarmless : String → ℕ → Call → Type 0
IsHarmless key end (looks other now) = str_eq other key ≡ true → now < end
IsHarmless key end (arrives other now) = str_eq other key ≡ true → now < end
IsHarmless key end (finishes other id entry now) = str_eq other key ≡ false
IsHarmless key end invalidates = ⊥

find_entry-remove_entry_ne :
    (key other : String) (lru : List PingCacheEntry)
    → str_eq other key ≡ false
    → find_entry key (remove_entry other lru) ≡ find_entry key lru
unfolding find_entry remove_entry
find_entry-remove_entry_ne key other [] ne = refl
find_entry-remove_entry_ne key other (e ∷ rest) ne = ground (
  arith,
  find_entry-remove_entry_ne key other rest ne,
  eq_iff e.key other,
  eq_iff e.key key,
  eq_iff other key,
)

find_entry-matches :
    (key : String) (lru : List PingCacheEntry) (e : PingCacheEntry)
    → find_entry key lru ≡ some e
    → str_eq e.key key ≡ true
unfolding find_entry
find_entry-matches key [] e h = ground arith
find_entry-matches key (x ∷ rest) e h = ground (arith, find_entry-matches key rest e)

take_all : (n : ℕ) (lru : List PingCacheEntry) → length lru ≤ n → take n lru ≡ lru
take_all zero [] h = refl
take_all zero (e ∷ rest) h = absurd (omega (arith, h))
take_all (suc n) [] h = refl
take_all (suc n) (e ∷ rest) h = rw (take_all n rest (omega (arith, h))) refl

-- What a lookup does to the list: nothing, or the entry that it finds goes to the front or away.
module _ (key other : String) (given e : PingCacheEntry) (rest : ℕ) (c : PingCache)
    (v : Holds key given (suc rest) c) (found : find_entry other c.lru ≡ some e) where
  removed-Holds :
      str_eq other key ≡ false → Holds key given rest (record c { lru = remove_entry other c.lru })
  removed-Holds ne = record {
    held = find_entry-remove_entry_ne key other c.lru ne ∙ v.held;
    room = omega (arith, v.room, remove_entry-shorter other c.lru);
  }

  to_front-Holds : Holds key given rest (record c { lru = e ∷ remove_entry other c.lru })
  unfolding find_entry
  to_front-Holds = record {
    held = ground (
      arith,
      find_entry-matches other c.lru e found,
      find_entry-remove_entry_ne key other c.lru,
      v.held,
      eq_iff e.key other,
      eq_iff e.key key,
      eq_iff other key,
    );
    room = omega (arith, v.room, remove_entry-length other c.lru e found);
  }

lookup_locked-Holds :
    (key other : String) (given : PingCacheEntry) (rest now : ℕ) (c : PingCache)
    → (str_eq other key ≡ true → now < given.expires_at)
    → Holds key given (suc rest) c
    → Holds key given rest (lookup_locked c other now).0
unfolding lookup_locked
lookup_locked-Holds key other given rest now c soon v =
    elim (Option-cases (find_entry other c.lru)) [
      | inl missing ↦
          rw (lookup_locked, missing) (record { held = v.held; room = omega (arith, v.room) })
      | inr (e, found) ↦ elim (Bool-cases (ltb now e.expires_at)) [
        | inl fresh ↦
            rw (lookup_locked, found, fresh) (to_front-Holds key other given e rest c v found)
        | inr stale ↦
            let ne : str_eq other key ≡ false =
              ground (arith, eq_iff other key, v.held, found, soon) in
            rw (lookup_locked, found, stale) (removed-Holds key other given e rest c v found ne)
      ]
    ]

-- Requests look up first, and leave the entries as they then are.
arrive-lru :
    (c : PingCache) (key : String) (now : ℕ)
    → (arrive c key now).0.lru ≡ (lookup_locked c key now).0.lru
unfolding arrive
arrive-lru c key now =
    let d = (lookup_locked c key now).0 in
    elim (Option-cases (lookup_locked c key now).1) [
      | inr (e, hit) ↦ rw (arrive, hit) refl
      | inl miss ↦ elim (Option-cases (lookup key d.inflight)) [
        | inr (f, joined) ↦ rw (arrive, miss, joined) refl
        | inl alone ↦ rw (arrive, miss, alone) refl
      ]
    ]

publish-Holds :
    (key other : String) (given : PingCacheEntry) (rest now : ℕ) (f : PingCacheFlight)
    (entry : Option PingCacheEntry) (c : PingCache)
    → str_eq other key ≡ false
    → Holds key given (suc rest) c
    → Holds key given rest (record c { lru = publish c other f entry now })
unfolding publish find_entry
publish-Holds key other given rest now f none c ne v = record {
  held = v.held;
  room = omega (arith, v.room);
}
publish-Holds key other given rest now f (some e) c ne v =
    elim (Bool-cases (f.generation == c.generation && ltb now e.expires_at)) [
      | inr refused ↦ rw refused (record { held = v.held; room = omega (arith, v.room) })
      | inl fresh ↦
          let lru : List PingCacheEntry = record e { key = other } ∷ remove_entry other c.lru in
          let fits : length lru + rest ≤ ping_cache_max_entries =
            omega (arith, v.room, remove_entry-shorter other c.lru) in
          let kept : find_entry key lru ≡ some given =
            rw ne (find_entry-remove_entry_ne key other c.lru ne ∙ v.held) in
          rw (fresh, take_all ping_cache_max_entries lru (omega (arith, fits)))
            (record { held = kept; room = fits })
    ]

finish_flight-Holds :
    (key other : String) (given : PingCacheEntry) (rest id now : ℕ) (entry : Option PingCacheEntry)
    (c : PingCache)
    → str_eq other key ≡ false
    → Holds key given (suc rest) c
    → Holds key given rest (finish_flight c other id entry now)
unfolding finish_flight
finish_flight-Holds key other given rest id now entry c ne v =
    let same : Holds key given rest c = record { held = v.held; room = omega (arith, v.room) } in
    elim (Option-cases (lookup other c.inflight)) [
      | inl gone ↦ rw (finish_flight, gone) same
      | inr (f, found) ↦ elim (Bool-cases (f.id == id)) [
        | inr not_its ↦ rw (finish_flight, found, not_its) same
        | inl own ↦
            let w = publish-Holds key other given rest now f entry c ne v in
            rw (finish_flight, found, own) (record { held = w.held; room = w.room })
      ]
    ]

run-Holds :
    (key : String) (given : PingCacheEntry) (xs : List Call) (c : PingCache)
    → All (IsHarmless key given.expires_at) xs
    → Holds key given (length xs) c
    → Holds key given 0 (run c xs)
unfolding run after
run-Holds key given [] c harmless v = v
run-Holds key given (looks other now ∷ xs) c harmless v =
    run-Holds key given xs (lookup_locked c other now).0 harmless.1
      (lookup_locked-Holds key other given (length xs) now c harmless.0 v)
run-Holds key given (arrives other now ∷ xs) c harmless v =
    let w = lookup_locked-Holds key other given (length xs) now c harmless.0 v in
    run-Holds key given xs (arrive c other now).0 harmless.1 (record {
      held = rw (arrive-lru c other now) w.held;
      room = rw (arrive-lru c other now) w.room;
    })
run-Holds key given (finishes other id entry now ∷ xs) c harmless v =
    run-Holds key given xs (finish_flight c other id entry now) harmless.1
      (finish_flight-Holds key other given (length xs) id now entry c harmless.0 v)
run-Holds key given (invalidates ∷ xs) c harmless v = absurd harmless.0

lookup_locked_held :
    (c : PingCache) (key : String) (given : PingCacheEntry) (now : ℕ)
    → find_entry key c.lru ≡ some given
    → (lookup_locked c key now).1 ≡ (if ltb now given.expires_at then some given else none)
unfolding lookup_locked
lookup_locked_held c key given now held = elim (Bool-cases (ltb now given.expires_at)) [
  | inl soon ↦ rw (lookup_locked, held, soon) refl
  | inr late ↦ rw (lookup_locked, held, late) refl
]

finish_flight_held :
    (c : PingCache) (key : String) (f : PingCacheFlight) (e : PingCacheEntry) (now : ℕ)
    → lookup key c.inflight ≡ some f
    → f.generation ≡ c.generation
    → now < e.expires_at
    → find_entry key (finish_flight c key f.id (some e) now).lru ≡ some (record e { key = key })
unfolding finish_flight publish find_entry
finish_flight_held c key f e now found current fresh =
    let own : (f.id == f.id) ≡ true = ground arith in
    let fine : (f.generation == c.generation && ltb now e.expires_at) ≡ true = ground arith in
    rw (finish_flight, found, own, fine, eq_refl key) refl

-- What the flight of a key fetched, if it was fresh and the cache was not invalidated since the
-- flight began, is served to every lookup of the key before it expires, and to none after that:
-- after any calls in which any keys are looked up and requested, the key itself before the entry
-- expires, and flights of other keys end. The cache is not invalidated by these calls, and has
-- room for as many more entries as they are, so that none is evicted.
pub fetched_is_served :
    (c : PingCache) (key : String) (f : PingCacheFlight) (e : PingCacheEntry) (now later : ℕ)
    (xs : List Call)
    → let d = finish_flight c key f.id (some e) now in
      lookup key c.inflight ≡ some f
      → f.generation ≡ c.generation
      → now < e.expires_at
      → All (IsHarmless key e.expires_at) xs
      → length d.lru + length xs ≤ ping_cache_max_entries
      → (lookup_locked (run d xs) key later).1
        ≡ (if ltb later e.expires_at then some (record e { key = key }) else none)
fetched_is_served c key f e now later xs found current fresh harmless room =
    let d = finish_flight c key f.id (some e) now in
    let given : PingCacheEntry = record e { key = key } in
    let start : Holds key given (length xs) d = record {
      held = finish_flight_held c key f e now found current fresh;
      room = room;
    } in
    lookup_locked_held (run d xs) key given later (run-Holds key given xs d harmless start).held
