-- ===== src/Traffic/Meter/Lifetime.antt =====
-- A meter from its request's first byte to its end.
use emby_panel.Prelude.{ℕ, ◌+◌, ◌≡◌, refl, true, false, List, [], ◌∷◌, arith}
use emby_panel.Traffic.Meter.{
  Counters, RequestTrafficMeter, new_request_traffic_meter_at, promote, add_minute_traffic,
  add_streaming, add, count_request, finish,
}
use emby_panel.Traffic.Meter.Conservation.{
  minutes_in, minutes_out, minutes_requests, ◌≈◌, Moves, promote-Moves, add-Moves, finish-Moves,
}

-- A request moves bytes, at an instant, or is promoted to a stream.
pub data Call : Type 0 where
  bytes : ℕ → ℕ → ℕ → Call
  promoted : Call

step : Call → Counters → RequestTrafficMeter → Counters × RequestTrafficMeter
step (bytes received sent at) c m = add received sent at c m
step promoted c m = promote c m

unfoldable pub run : List Call → Counters → RequestTrafficMeter → Counters × RequestTrafficMeter
unfolding step
run [] c m = (c, m)
run (x ∷ xs) c m = let (c', m') = step x c m in run xs c' m'

abbrev call_in : Call → ℕ
call_in (bytes received sent at) = received
call_in promoted = 0

abbrev call_out : Call → ℕ
call_out (bytes received sent at) = sent
call_out promoted = 0

abbrev pub received_by : List Call → ℕ
received_by [] = 0
received_by (x ∷ xs) = call_in x + received_by xs

abbrev pub sent_by : List Call → ℕ
sent_by [] = 0
sent_by (x ∷ xs) = call_out x + sent_by xs

-- A meter that streams has handed over all that it held.
record IsOpen (m : RequestTrafficMeter) : Type 0 where
  live : m.finished ≡ false
  empty_in : m.streaming ≡ true → m.local_in ≡ 0
  empty_out : m.streaming ≡ true → m.local_out ≡ 0

promote-IsOpen : (c : Counters) (m : RequestTrafficMeter) → IsOpen m → IsOpen (promote c m).1
unfolding promote
promote-IsOpen c m v = ground arith

promote-streaming : (c : Counters) (m : RequestTrafficMeter) → (promote c m).1.streaming ≡ true
unfolding promote
promote-streaming c m = ground arith

step-IsOpen : (x : Call) (c : Counters) (m : RequestTrafficMeter) → IsOpen m → IsOpen (step x c m).1
unfolding step add add_streaming
step-IsOpen promoted c m v = promote-IsOpen c m v
step-IsOpen (bytes received sent at) c m v = ground (arith, promote-IsOpen c m v)

step-Moves :
    (x : Call) (c : Counters) (m : RequestTrafficMeter)
    → IsOpen m
    → Moves c (step x c m).0 m (step x c m).1 (call_in x) (call_out x) 0
unfolding step
step-Moves promoted c m v = promote-Moves c m
step-Moves (bytes received sent at) c m v = add-Moves received sent at c m v.live

run-IsOpen :
    (xs : List Call) (c : Counters) (m : RequestTrafficMeter) → IsOpen m → IsOpen (run xs c m).1
unfolding run
run-IsOpen [] c m v = v
run-IsOpen (x ∷ xs) c m v = let (c', m') = step x c m in run-IsOpen xs c' m' (step-IsOpen x c m v)

run-Moves :
    (xs : List Call) (c : Counters) (m : RequestTrafficMeter)
    → IsOpen m
    → Moves c (run xs c m).0 m (run xs c m).1 (received_by xs) (sent_by xs) 0
unfolding run
run-Moves [] c m v = omega arith
run-Moves (x ∷ xs) c m v =
    let (c', m') = step x c m in
    omega (arith, step-Moves x c m v, run-Moves xs c' m' (step-IsOpen x c m v))

step_requests :
    (x : Call) (c : Counters) (m : RequestTrafficMeter)
    → ((step x c m).0.req_count ≡ c.req_count)
      × ((step x c m).0.pending_requests ≡ c.pending_requests)
      × ((step x c m).0.active_traffic_meters ≡ c.active_traffic_meters)
unfolding step add add_streaming promote add_minute_traffic
step_requests promoted c m = ground arith
step_requests (bytes received sent at) c m = ground arith

run_requests :
    (xs : List Call) (c : Counters) (m : RequestTrafficMeter)
    → ((run xs c m).0.req_count ≡ c.req_count)
      × ((run xs c m).0.pending_requests ≡ c.pending_requests)
      × ((run xs c m).0.active_traffic_meters ≡ c.active_traffic_meters)
unfolding run
run_requests [] c m = omega arith
run_requests (x ∷ xs) c m =
    let (c', m') = step x c m in omega (arith, step_requests x c m, run_requests xs c' m')

finish_requests :
    (at : ℕ) (c : Counters) (m : RequestTrafficMeter)
    → m.finished ≡ false
    → ((finish at c m).0.req_count ≈ c.req_count + 1)
      × ((finish at c m).0.pending_requests ≈ c.pending_requests + 1)
      × ((finish at c m).0.active_traffic_meters + 1 ≈ c.active_traffic_meters)
unfolding finish count_request add_minute_traffic
finish_requests at c m h = ground arith

finish_empty :
    (at : ℕ) (c : Counters) (m : RequestTrafficMeter)
    → IsOpen m
    → ((finish at c m).1.local_in ≡ 0)
      × ((finish at c m).1.local_out ≡ 0)
      × ((finish at c m).1.finished ≡ true)
unfolding finish
finish_empty at c m v = ground arith

-- The whole life of a meter: opened, any calls, finished.
unfoldable pub lifetime : ℕ → List Call → ℕ → Counters → Counters × RequestTrafficMeter
lifetime opened xs closed c =
    let (c', m) = new_request_traffic_meter_at opened c in
    let (d, n) = run xs c' m in finish closed d n

-- Whatever a request does between its start and its end, and however often it crosses a minute or
-- becomes a stream: the site's counters grow by exactly the bytes that passed, the minute buckets
-- grow by the same bytes and by one request, that request is counted once, and the number of
-- active meters is what it was. All counters are int64, so this is modulo 2^64.
pub lifetime_exact :
    (opened : ℕ) (xs : List Call) (closed : ℕ) (c : Counters)
    → let c' = (lifetime opened xs closed c).0 in
      let before = c.pending_minute_traffic in
      let after = c'.pending_minute_traffic in
      (c'.bytes_in ≈ c.bytes_in + received_by xs)
      × (c'.bytes_out ≈ c.bytes_out + sent_by xs)
      × (minutes_in after ≈ minutes_in before + received_by xs)
      × (minutes_out after ≈ minutes_out before + sent_by xs)
      × (minutes_requests after ≈ minutes_requests before + 1)
      × (c'.req_count ≈ c.req_count + 1)
      × (c'.pending_requests ≈ c.pending_requests + 1)
      × (c'.active_traffic_meters ≈ c.active_traffic_meters)
unfolding lifetime new_request_traffic_meter_at
lifetime_exact opened xs closed c =
    let (c', m) = new_request_traffic_meter_at opened c in
    let v : IsOpen m = record { live = refl; empty_in = λ e. refl; empty_out = λ e. refl } in
    let (d, n) = run xs c' m in
    let w = run-IsOpen xs c' m v in
    omega (
      arith,
      run-Moves xs c' m v,
      run_requests xs c' m,
      finish-Moves closed d n w.live,
      finish_requests closed d n w.live,
      finish_empty closed d n w,
    )

lifetime_finished :
    (opened : ℕ) (xs : List Call) (closed : ℕ) (c : Counters)
    → (lifetime opened xs closed c).1.finished ≡ true
unfolding lifetime finish
lifetime_finished opened xs closed c = ground arith

-- A finished meter counts nothing more: neither bytes nor a second end change anything.
pub finished_is_inert :
    (opened : ℕ) (xs : List Call) (closed received sent at again : ℕ) (c : Counters)
    → let (c', m) = lifetime opened xs closed c in
      (add received sent at c' m ≡ (c', m)) × (finish again c' m ≡ (c', m))
unfolding add finish
finished_is_inert opened xs closed received sent at again c =
    let (c', m) = lifetime opened xs closed c in
    let done = lifetime_finished opened xs closed c in (ground arith, ground arith)
