-- ===== src/Cache/Ping.antt =====
-- legacy_ping_cache.go: the cache of the answers to a site's pings. Requests of one key share a
-- flight upstream. `lru` are the elements of the list, the last used first; the Go map `entries`
-- has the element of each key. A key is a text, and an instant a number of nanoseconds.
pub mod Flights
pub mod Serving
pub mod Invalidation
pub mod Bodies
mod Examples
use emby_panel.Prelude.{
  ℕ, suc, ◌+◌, Bool, true, false, ◌&&◌, ◌==◌, ltb, Option, none, some, List, [], ◌∷◌, take, String,
  str_eq, if◌then◌else◌,
}
use emby_panel.Prelude.Maps.{Map, lookup, insert, delete}

abbrev pub ping_cache_max_entries : ℕ
ping_cache_max_entries = 256

-- `response` stands for the header and the body.
pub record PingCacheEntry : Type 0 where
  pub key : String
  pub response : ℕ
  pub expires_at : ℕ

-- `id` is the address.
pub record PingCacheFlight : Type 0 where
  pub id : ℕ
  pub generation : ℕ
  pub waiters : ℕ

pub record PingCache : Type 0 where
  pub generation : ℕ
  pub lru : List PingCacheEntry
  pub inflight : Map PingCacheFlight
  pub next_id : ℕ

unfoldable pub new_ping_cache : PingCache
new_ping_cache = record { generation = 0; lru = []; inflight = []; next_id = 0 }

-- entries[key]
unfoldable pub find_entry : String → List PingCacheEntry → Option PingCacheEntry
find_entry key [] = none
find_entry key (e ∷ rest) = if str_eq e.key key then some e else find_entry key rest

unfoldable pub remove_entry : String → List PingCacheEntry → List PingCacheEntry
remove_entry key [] = []
remove_entry key (e ∷ rest) = if str_eq e.key key then rest else e ∷ remove_entry key rest

unfoldable pub lookup_locked : PingCache → String → ℕ → PingCache × Option PingCacheEntry
lookup_locked c key now = elim (find_entry key c.lru) [
  | none ↦ (c, none)
  | some e ↦
      if ltb now e.expires_at
      then (record c { lru = e ∷ remove_entry key c.lru }, some e)
      else (record c { lru = remove_entry key c.lru }, none)
]

-- How a request goes on: with a cached entry, with a flight that it waits for, or with its own.
pub data Arrival : Type 0 where
  is_hit : PingCacheEntry → Arrival
  joins starts : ℕ → Arrival

-- roundTrip, under the lock.
unfoldable pub arrive : PingCache → String → ℕ → PingCache × Arrival
unfolding lookup_locked
arrive c key now =
    let (d, found) = lookup_locked c key now in
    elim found [
      | some e ↦ (d, is_hit e)
      | none ↦ elim (lookup key d.inflight) [
        | some f ↦ (
          record d { inflight = insert key (record f { waiters = suc f.waiters }) d.inflight },
          joins f.id,
        )
        | none ↦ (
          record d {
            inflight =
                insert key (record { id = d.next_id; generation = d.generation; waiters = 0 })
                  d.inflight;
            next_id = suc d.next_id;
          },
          starts d.next_id,
        )
      ]
    ]

-- An entry is published if the cache was not invalidated since its flight began, and it is fresh.
unfoldable pub publish :
    PingCache → String → PingCacheFlight → Option PingCacheEntry → ℕ → List PingCacheEntry
publish c key f none now = c.lru
publish c key f (some e) now =
    if f.generation == c.generation && ltb now e.expires_at
    then take ping_cache_max_entries (record e { key = key } ∷ remove_entry key c.lru)
    else c.lru

unfoldable pub finish_flight : PingCache → String → ℕ → Option PingCacheEntry → ℕ → PingCache
unfolding publish
finish_flight c key id entry now = elim (lookup key c.inflight) [
  | none ↦ c
  | some f ↦
      if f.id == id
      then record c { lru = publish c key f entry now; inflight = delete key c.inflight }
      else c
]

unfoldable pub invalidate : PingCache → PingCache
invalidate c = record c { generation = suc c.generation; lru = [] }
