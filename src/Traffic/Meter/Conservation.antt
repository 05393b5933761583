-- ===== src/Traffic/Meter/Conservation.antt =====
-- No byte and no request of a meter is lost or counted twice on its way to the minute buckets.
use emby_panel.Prelude.{ℕ, ◌+◌, ◌%◌, ◌≡◌, true, false, List, [], ◌∷◌, arith}
use emby_panel.Prelude.Int.{ℤ, modulus64}
use emby_panel.Traffic.Meter.{
  TrafficMinuteDelta, Counters, RequestTrafficMeter, add_to_minute, add_minute_traffic, promote,
  add_streaming, add, count_request, finish, finish_delta, traffic_minute_start,
}

-- The sums over all minutes that wait for a flush.
abbrev pub minutes_in : List (ℤ × TrafficMinuteDelta) → ℕ
minutes_in [] = 0
minutes_in ((k, d) ∷ m) = d.bytes_in + minutes_in m

abbrev pub minutes_out : List (ℤ × TrafficMinuteDelta) → ℕ
minutes_out [] = 0
minutes_out ((k, d) ∷ m) = d.bytes_out + minutes_out m

abbrev pub minutes_requests : List (ℤ × TrafficMinuteDelta) → ℕ
minutes_requests [] = 0
minutes_requests ((k, d) ∷ m) = d.requests + minutes_requests m

infix 4 ◌≈◌
-- The same int64.
abbrev pub ◌≈◌ : ℕ → ℕ → Type 0
a ≈ b = a % modulus64 ≡ b % modulus64

add_to_minute-in :
    (k : ℤ) (e : TrafficMinuteDelta) (m : List (ℤ × TrafficMinuteDelta))
    → minutes_in (add_to_minute k e m) ≈ minutes_in m + e.bytes_in
unfolding add_to_minute
add_to_minute-in k e [] = ground arith
add_to_minute-in k e ((j, d) ∷ m) = ground (arith, add_to_minute-in k e m)

add_to_minute-out :
    (k : ℤ) (e : TrafficMinuteDelta) (m : List (ℤ × TrafficMinuteDelta))
    → minutes_out (add_to_minute k e m) ≈ minutes_out m + e.bytes_out
unfolding add_to_minute
add_to_minute-out k e [] = ground arith
add_to_minute-out k e ((j, d) ∷ m) = ground (arith, add_to_minute-out k e m)

add_to_minute-requests :
    (k : ℤ) (e : TrafficMinuteDelta) (m : List (ℤ × TrafficMinuteDelta))
    → minutes_requests (add_to_minute k e m) ≈ minutes_requests m + e.requests
unfolding add_to_minute
add_to_minute-requests k e [] = ground arith
add_to_minute-requests k e ((j, d) ∷ m) = ground (arith, add_to_minute-requests k e m)

-- What one call did to the counters, where the meter held `before` and holds `after`, and
-- `counted` requests were counted.
pub record Moves (c c' : Counters) (before after : RequestTrafficMeter) (received sent counted : ℕ)
    : Type 0 where
  pub bytes_in : c'.bytes_in ≈ c.bytes_in + received
  pub bytes_out : c'.bytes_out ≈ c.bytes_out + sent
  pub waiting_in :
      minutes_in c'.pending_minute_traffic + after.local_in
      ≈ minutes_in c.pending_minute_traffic + before.local_in + received
  pub waiting_out :
      minutes_out c'.pending_minute_traffic + after.local_out
      ≈ minutes_out c.pending_minute_traffic + before.local_out + sent
  pub requests :
      minutes_requests c'.pending_minute_traffic
      ≈ minutes_requests c.pending_minute_traffic + counted
  pub flush_in :
      c'.flush_bytes_in + minutes_in c.pending_minute_traffic
      ≈ c.flush_bytes_in + minutes_in c'.pending_minute_traffic
  pub flush_out :
      c'.flush_bytes_out + minutes_out c.pending_minute_traffic
      ≈ c.flush_bytes_out + minutes_out c'.pending_minute_traffic

-- A call of addMinuteTraffic.
record Delivered (c c' : Counters) (e : TrafficMinuteDelta) (received sent : ℕ) : Type 0 where
  bytes_in : c'.bytes_in ≈ c.bytes_in + received
  bytes_out : c'.bytes_out ≈ c.bytes_out + sent
  waiting_in :
      minutes_in c'.pending_minute_traffic ≈ minutes_in c.pending_minute_traffic + e.bytes_in
  waiting_out :
      minutes_out c'.pending_minute_traffic ≈ minutes_out c.pending_minute_traffic + e.bytes_out
  requests :
      minutes_requests c'.pending_minute_traffic
      ≈ minutes_requests c.pending_minute_traffic + e.requests
  flush_in : c'.flush_bytes_in ≈ c.flush_bytes_in + e.bytes_in
  flush_out : c'.flush_bytes_out ≈ c.flush_bytes_out + e.bytes_out

module _ (minute : ℤ) (e : TrafficMinuteDelta) (c : Counters) where
  deliver_quietly : Delivered c (add_minute_traffic minute e false c) e 0 0
  unfolding add_minute_traffic
  deliver_quietly = ground (
    arith,
    add_to_minute-in minute e c.pending_minute_traffic,
    add_to_minute-out minute e c.pending_minute_traffic,
    add_to_minute-requests minute e c.pending_minute_traffic,
  )

  deliver_globally : Delivered c (add_minute_traffic minute e true c) e e.bytes_in e.bytes_out
  unfolding add_minute_traffic
  deliver_globally = ground (
    arith,
    add_to_minute-in minute e c.pending_minute_traffic,
    add_to_minute-out minute e c.pending_minute_traffic,
    add_to_minute-requests minute e c.pending_minute_traffic,
  )

pub promote-Moves :
    (c : Counters) (m : RequestTrafficMeter) → Moves c (promote c m).0 m (promote c m).1 0 0 0
unfolding promote
promote-Moves c m = ground (
  arith,
  deliver_quietly m.started_minute
      (record { bytes_in = m.local_in; bytes_out = m.local_out; requests = 0 }) c,
)

add_streaming-Moves :
    (minute : ℤ) (received sent : ℕ) (c : Counters) (m : RequestTrafficMeter)
    → Moves c
        (add_streaming minute received sent c m).0
        m
        (add_streaming minute received sent c m).1
        received
        sent
        0
unfolding add_streaming
add_streaming-Moves minute received sent c m = ground (
  arith,
  deliver_globally minute (record { bytes_in = received; bytes_out = sent; requests = 0 }) c,
)

promote-add_streaming-Moves :
    (minute : ℤ) (received sent : ℕ) (c : Counters) (m : RequestTrafficMeter)
    → let (d, n) = promote c m in
      let (c', m') = add_streaming minute received sent d n in Moves c c' m m' received sent 0
promote-add_streaming-Moves minute received sent c m =
    let (d, n) = promote c m in
    omega (arith, promote-Moves c m, add_streaming-Moves minute received sent d n)

pub add-Moves :
    (received sent at : ℕ) (c : Counters) (m : RequestTrafficMeter)
    → m.finished ≡ false
    → Moves c (add received sent at c m).0 m (add received sent at c m).1 received sent 0
unfolding add
add-Moves received sent at c m live = ground (
  arith,
  promote-add_streaming-Moves (traffic_minute_start at) received sent c m,
  add_streaming-Moves (traffic_minute_start at) received sent c m,
)

pub finish-Moves :
    (at : ℕ) (c : Counters) (m : RequestTrafficMeter)
    → m.finished ≡ false
    → Moves c (finish at c m).0 m (finish at c m).1 0 0 1
unfolding finish finish_delta count_request
finish-Moves at c m live =
    ground (arith, deliver_quietly (traffic_minute_start at) (finish_delta m) c)
