-- ===== src/Traffic/Meter.antt =====
-- request_traffic_meter.go: how the bytes of one request reach the counters of its site. The
-- counters are int64; only sums and tests against 0 are made of them, so each is kept as its bit
-- pattern, a number below 2^64, and + wraps around.
mod Examples
pub mod Conservation
pub mod Lifetime
use emby_panel.Prelude.{
  ℕ, ◌+◌, ◌-◌, ◌*◌, ◌/◌, ◌%◌, ◌==◌, Bool, true, false, not, ◌&&◌, ◌||◌, List, [], ◌∷◌,
  if◌then◌else◌,
}
use emby_panel.Prelude.Int.{ℤ, sub_ℕ, ==_ℤ, modulus64}

-- a + b on int64.
abbrev pub plus64 : ℕ → ℕ → ℕ
plus64 a b = (a + b) % modulus64

pub record TrafficMinuteDelta : Type 0 where
  pub bytes_in : ℕ
  pub bytes_out : ℕ
  pub requests : ℕ

-- The counters of a ProxyInstance that a meter touches.
pub record Counters : Type 0 where
  pub bytes_in : ℕ
  pub bytes_out : ℕ
  pub req_count : ℕ
  pub pending_requests : ℕ
  pub active_traffic_meters : ℕ
  pub flush_bytes_in : ℕ
  pub flush_bytes_out : ℕ
  pub pending_minute_traffic : List (ℤ × TrafficMinuteDelta)

pub record RequestTrafficMeter : Type 0 where
  pub started_minute : ℤ
  pub local_in : ℕ
  pub local_out : ℕ
  pub streaming : Bool
  pub finished : Bool

-- at.UTC().Truncate(time.Minute).Unix(), for an instant in nanoseconds since the year 1, where
-- time.Time begins; the Unix epoch is 62135596800 seconds later.
unfoldable pub traffic_minute_start : ℕ → ℤ
traffic_minute_start at = sub_ℕ (at / 60000000000 * 60) 62135596800

add_delta : TrafficMinuteDelta → TrafficMinuteDelta → TrafficMinuteDelta
add_delta d e = record {
  bytes_in = plus64 d.bytes_in e.bytes_in;
  bytes_out = plus64 d.bytes_out e.bytes_out;
  requests = plus64 d.requests e.requests;
}

-- A missing minute starts from the zero delta.
pub add_to_minute :
    ℤ → TrafficMinuteDelta → List (ℤ × TrafficMinuteDelta) → List (ℤ × TrafficMinuteDelta)
unfolding add_delta
add_to_minute k e [] = (k, add_delta (record { bytes_in = 0; bytes_out = 0; requests = 0 }) e) ∷ []
add_to_minute k e ((j, d) ∷ m) =
    if ==_ℤ j k then (k, add_delta d e) ∷ m else (j, d) ∷ add_to_minute k e m

pub add_minute_traffic : ℤ → TrafficMinuteDelta → Bool → Counters → Counters
add_minute_traffic minute_start e add_global c =
    if e.bytes_in == 0 && e.bytes_out == 0 && e.requests == 0 then c else record c {
      bytes_in = if add_global then plus64 c.bytes_in e.bytes_in else c.bytes_in;
      bytes_out = if add_global then plus64 c.bytes_out e.bytes_out else c.bytes_out;
      pending_minute_traffic = add_to_minute minute_start e c.pending_minute_traffic;
      flush_bytes_in = plus64 c.flush_bytes_in e.bytes_in;
      flush_bytes_out = plus64 c.flush_bytes_out e.bytes_out;
    }

unfoldable pub new_request_traffic_meter_at : ℕ → Counters → Counters × RequestTrafficMeter
new_request_traffic_meter_at at c = (
  record c { active_traffic_meters = plus64 c.active_traffic_meters 1 },
  record {
    started_minute = traffic_minute_start at;
    local_in = 0;
    local_out = 0;
    streaming = false;
    finished = false;
  },
)

-- promoteLocked, which promote calls with the meter locked.
pub promote : Counters → RequestTrafficMeter → Counters × RequestTrafficMeter
promote c m =
    let e : TrafficMinuteDelta = record {
      bytes_in = m.local_in;
      bytes_out = m.local_out;
      requests = 0;
    } in
    if m.streaming
    then (c, m)
    else if not (m.local_in == 0) || not (m.local_out == 0)
    then (
      add_minute_traffic m.started_minute e false c,
      record m { streaming = true; local_in = 0; local_out = 0 },
    )
    else (c, record m { streaming = true })

pub add_streaming : ℤ → ℕ → ℕ → Counters → RequestTrafficMeter → Counters × RequestTrafficMeter
add_streaming minute bytes_in bytes_out c m =
    let e : TrafficMinuteDelta = record {
      bytes_in = bytes_in;
      bytes_out = bytes_out;
      requests = 0;
    } in
    (add_minute_traffic minute e true c, m)

pub add : ℕ → ℕ → ℕ → Counters → RequestTrafficMeter → Counters × RequestTrafficMeter
add bytes_in bytes_out at c m =
    let minute = traffic_minute_start at in
    if bytes_in == 0 && bytes_out == 0
    then (c, m)
    else if m.finished
    then (c, m)
    else if not m.streaming && ==_ℤ minute m.started_minute
    then (
      record c { bytes_in = plus64 c.bytes_in bytes_in; bytes_out = plus64 c.bytes_out bytes_out },
      record m { local_in = plus64 m.local_in bytes_in; local_out = plus64 m.local_out bytes_out },
    )
    else (let (c', m') = if not m.streaming then promote c m else (c, m) in
        add_streaming minute bytes_in bytes_out c' m')

-- The delta that finish hands over, with the one request.
pub finish_delta : RequestTrafficMeter → TrafficMinuteDelta
finish_delta m =
    if m.streaming
    then record { bytes_in = 0; bytes_out = 0; requests = 1 }
    else record { bytes_in = m.local_in; bytes_out = m.local_out; requests = 1 }

pub count_request : Counters → Counters
count_request c = record c {
  req_count = plus64 c.req_count 1;
  pending_requests = plus64 c.pending_requests 1;
  active_traffic_meters = plus64 c.active_traffic_meters (modulus64 - 1);
}

pub finish : ℕ → Counters → RequestTrafficMeter → Counters × RequestTrafficMeter
finish at c m = if m.finished then (c, m) else (
  count_request (add_minute_traffic (traffic_minute_start at) (finish_delta m) false c),
  if m.streaming
      then record m { finished = true }
      else record m { finished = true; local_in = 0; local_out = 0 },
)
