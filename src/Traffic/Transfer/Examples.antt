-- ===== src/Traffic/Transfer/Examples.antt =====
-- A write of 30 bytes where the quota has room for 10, and one where it has none.
use emby_panel.Prelude.{ℕ, ◌+◌, ◌-◌, ◌≡◌, refl, true, false, Option, none, some, [], arith, min}
use emby_panel.Prelude.Int.{pos}
use emby_panel.Traffic.Quota.{QuotaState, Cycle, quota_exceeded}
use emby_panel.Traffic.Quota.Ledger.{IsCurrent}
use emby_panel.Traffic.Transfer.{Meters, quota_failed, add_metered_bytes_with_meter, write}
use emby_panel.Traffic.Transfer.Accounts.{not_sent, reported, write_charges, write_exhausted}

abbrev used : ℕ → QuotaState
used n = record {
  quota = pos 100;
  cycle_start = 1;
  cycle_mode = "both";
  usage = pos n;
  generation = 1;
  initialized = true;
}

abbrev this_month : Cycle
this_month = record { start = 1; mode = "both"; current_used = some (pos 90) }

abbrev no_meters : Meters
no_meters = record {
  primary = some 0;
  cumulative = none;
  meter = none;
  counters = record {
    bytes_in = 0;
    bytes_out = 0;
    req_count = 0;
    pending_requests = 0;
    active_traffic_meters = 0;
    flush_bytes_in = 0;
    flush_bytes_out = 0;
    pending_minute_traffic = [];
  };
}

-- A connection that takes everything.
abbrev takes_all : ℕ → ℕ × Option ℕ
takes_all n = (n, none)

used-IsCurrent : (n : ℕ) → IsCurrent this_month (used n)
used-IsCurrent n = ground arith

write_charges_example :
    let offered = min 30 (100 - 90) in
    let (t, n, e) = write takes_all 5 30 this_month (not_sent (some (used 90)) no_meters) in
    (n ≡ (takes_all offered).0)
    × (t
        ≡ not_sent
            (some (record (used 90) { usage = pos (90 + n) }))
            (add_metered_bytes_with_meter false 5 n no_meters))
    × (e ≡ reported 30 offered n (takes_all offered).1)
write_charges_example =
    write_charges takes_all this_month (used 90) 100 90 30 (used-IsCurrent 90) refl refl
      (ground arith) (ground arith) (ground arith) 5 no_meters (ground arith) (ground arith)

write_exhausted_example :
    write takes_all 5 30 this_month (not_sent (some (used 100)) no_meters)
    ≡ (not_sent (some (used 100)) no_meters, 0, some (quota_failed quota_exceeded))
write_exhausted_example =
    write_exhausted takes_all this_month (used 100) 100 100 30 (used-IsCurrent 100) refl refl
      (ground arith) (ground arith) (ground arith) 5 no_meters (ground arith) (ground arith)
      (ground arith)
