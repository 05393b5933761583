-- ===== src/Traffic/Meter/Examples.antt =====
-- A request that moves bytes in one minute, becomes a stream and ends in the next.
use emby_panel.Prelude.{◌+◌, List, [], ◌∷◌}
use emby_panel.Traffic.Meter.{Counters}
use emby_panel.Traffic.Meter.Conservation.{minutes_in, minutes_out, minutes_requests, ◌≈◌}
use emby_panel.Traffic.Meter.Lifetime.{
  Call, bytes, promoted, lifetime, received_by, sent_by, lifetime_exact,
}

abbrev fresh : Counters
fresh = record {
  bytes_in = 0;
  bytes_out = 0;
  req_count = 0;
  pending_requests = 0;
  active_traffic_meters = 0;
  flush_bytes_in = 0;
  flush_bytes_out = 0;
  pending_minute_traffic = [];
}

abbrev calls : List Call
calls = bytes 3 10 1000000000 ∷ promoted ∷ bytes 0 20 70000000000 ∷ []

lifetime_exact_example :
    let c' = (lifetime 0 calls 80000000000 fresh).0 in
    let before = fresh.pending_minute_traffic in
    let after = c'.pending_minute_traffic in
    (c'.bytes_in ≈ fresh.bytes_in + received_by calls)
    × (c'.bytes_out ≈ fresh.bytes_out + sent_by calls)
    × (minutes_in after ≈ minutes_in before + received_by calls)
    × (minutes_out after ≈ minutes_out before + sent_by calls)
    × (minutes_requests after ≈ minutes_requests before + 1)
    × (c'.req_count ≈ fresh.req_count + 1)
    × (c'.pending_requests ≈ fresh.pending_requests + 1)
    × (c'.active_traffic_meters ≈ fresh.active_traffic_meters)
lifetime_exact_example = lifetime_exact 0 calls 80000000000 fresh
