-- ===== src/Cache/Ping/Examples.antt =====
-- Two clients ping a site at once; the site is changed while the answer is on its way.
use emby_panel.Prelude.{All, ℕ, ◌≡◌, refl, true, false, none, some, List, [], ◌∷◌, arith}
use emby_panel.Prelude.Maps.{lookup, insert}
use emby_panel.Cache.Ping.{
  PingCache, PingCacheEntry, PingCacheFlight, new_ping_cache, lookup_locked, arrive, finish_flight,
  invalidate, find_entry, publish,
}
use emby_panel.Cache.Ping.Flights.{Call, looks, arrives, finishes, run, IsKept, new_run-IsKept}
use emby_panel.Cache.Ping.Serving.{IsHarmless, fetched_is_served}
use emby_panel.Cache.Ping.Invalidation.{IsFetched, IsServed, no_stale_response}
use emby_panel.Cache.Ping.Bodies.{
  Answer, Headers, prepare_response, IsWhole, prepare_response-IsWhole,
}

abbrev two_pings : List Call
two_pings = arrives "/System/Ping" 10 ∷ arrives "/System/Ping" 11 ∷ []

abbrev pong : PingCacheEntry
pong = record { key = ""; response = 200; expires_at = 2000000012 }

abbrev answered : List Call
answered =
    arrives "/System/Ping" 10
    ∷ arrives "/System/Ping" 11
    ∷ finishes "/System/Ping" 0 (some pong) 12
    ∷ looks "/System/Ping" 13
    ∷ arrives "/emby/System/Ping" 14
    ∷ []

new_run-IsKept_example : IsKept (run new_ping_cache answered)
new_run-IsKept_example = new_run-IsKept answered

-- The flight that began before the invalidation ends after it with an old answer, and another
-- brings a new one.
abbrev old_pong : PingCacheEntry
old_pong = record { key = ""; response = 1; expires_at = 2000000012 }

abbrev renewed : List Call
renewed =
    finishes "/System/Ping" 0 (some old_pong) 12
    ∷ arrives "/System/Ping" 13
    ∷ finishes "/System/Ping" 1 (some pong) 14
    ∷ finishes "/System/Ping" 0 (some old_pong) 15
    ∷ []

abbrev IsNew : ℕ → Type 0
IsNew response = response ≡ 200

later_answers : All (IsFetched IsNew 1) renewed
later_answers = (
  (λ late. absurd (omega (arith, late))),
  (tt, ((λ late. refl), ((λ late. absurd (omega (arith, late))), tt))),
)

no_stale_response_example :
    IsServed IsNew
      (lookup_locked (run (invalidate (run new_ping_cache two_pings)) renewed) "/System/Ping" 16).1
unfolding run arrive find_entry new_ping_cache insert lookup invalidate
no_stale_response_example =
    no_stale_response IsNew two_pings renewed "/System/Ping" 16 later_answers

abbrev waiting : PingCache
waiting = run new_ping_cache two_pings

abbrev shared_flight : PingCacheFlight
shared_flight = record { id = 0; generation = 0; waiters = 1 }

-- The entry is looked up twice, and another flight ends.
abbrev meanwhile : List Call
meanwhile =
    arrives "/emby/System/Ping" 13
    ∷ looks "/System/Ping" 14
    ∷ finishes "/emby/System/Ping" 1 (some pong) 15
    ∷ arrives "/System/Ping" 16
    ∷ []

meanwhile_ok : All (IsHarmless "/System/Ping" 2000000012) meanwhile
meanwhile_ok =
    ((λ same. ground arith), ((λ same. ground arith), (refl, ((λ same. ground arith), tt))))

fetched_is_served_example :
    (lookup_locked
      (run (finish_flight waiting "/System/Ping" 0 (some pong) 12) meanwhile)
      "/System/Ping"
      17).1
    ≡ some (record { key = "/System/Ping"; response = 200; expires_at = 2000000012 })
unfolding lookup run arrive find_entry new_ping_cache insert finish_flight publish
    emby_panel.Cache.Ping.remove_entry
fetched_is_served_example =
    fetched_is_served waiting "/System/Ping" shared_flight pong 12 17 meanwhile refl refl
      (omega arith) meanwhile_ok (omega arith)

abbrev plain_headers : Headers
plain_headers = record {
  status = 200;
  set_cookie = false;
  content_range = false;
  trailer = false;
  vary_safe = true;
  directives_valid = true;
  is_private = false;
  no_store = false;
  no_cache = false;
  pragma_no_cache = false;
}

abbrev pong_answer : Answer
pong_answer = record {
  headers = plain_headers;
  content_length = some 4;
  body = 112 ∷ 111 ∷ 110 ∷ 103 ∷ [];
  read_error = none;
  close_fails = false;
  expires_at = some 2000000012;
  replayable = true;
}

prepare_response-IsWhole_example :
    ((prepare_response false pong_answer).bytes ≡ 112 ∷ 111 ∷ 110 ∷ 103 ∷ [])
    × ((prepare_response false pong_answer).error ≡ none)
    × IsWhole false pong_answer (prepare_response false pong_answer).entry
prepare_response-IsWhole_example = prepare_response-IsWhole false pong_answer
