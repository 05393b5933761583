-- ===== src/Traffic/Billing/Examples.antt =====
-- The billing rules at concrete counts.
use emby_panel.Prelude.{◌+◌, ◌≡◌, min, arith, str_eq, if◌then◌else◌}
use emby_panel.Prelude.Int.{pos, pos_part, max_int64}
use emby_panel.Traffic.Billing.{
  traffic_billing_mode_outbound, traffic_billable_bytes, traffic_billable_bytes_exact,
}

traffic_billable_bytes_exact_example :
    traffic_billable_bytes "both" (pos max_int64) (pos 5)
    ≡ pos (
        if str_eq "both" traffic_billing_mode_outbound
        then pos_part (pos 5)
        else min max_int64 (pos_part (pos max_int64) + pos_part (pos 5)))
traffic_billable_bytes_exact_example =
    traffic_billable_bytes_exact "both" (pos max_int64) (pos 5) (ground arith) (ground arith)
