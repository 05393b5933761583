-- ===== src/Traffic/Billing.antt =====
-- traffic_accounting.go: which bytes are billed. An int64 is an integer in its range.
mod Examples
use emby_panel.Prelude.{ℕ, ◌+◌, ◌-◌, ◌/◌, ◌≤◌, ◌≡◌, String, arith, min, str_eq, if◌then◌else◌}
use emby_panel.Prelude.Int.{
  ℤ, pos, negsuc, pos_part, ltb_ℤ, max_int64, Fits64, add64, sub64, add64_pos, sub64_pos,
}

abbrev pub traffic_billing_mode_bidirectional : String
traffic_billing_mode_bidirectional = "bidirectional"

abbrev pub traffic_billing_mode_outbound : String
traffic_billing_mode_outbound = "outbound"

-- if n < 0 { n = 0 }
abbrev pub clamp_negative : ℤ → ℤ
clamp_negative n = if ltb_ℤ n (pos 0) then pos 0 else n

-- The saturating sum of two values that are not negative.
billable_sum : ℤ → ℤ → ℤ
billable_sum bytes_in bytes_out =
    if ltb_ℤ (sub64 (pos max_int64) bytes_out) bytes_in
    then pos max_int64
    else add64 bytes_in bytes_out

unfoldable pub traffic_billable_bytes : String → ℤ → ℤ → ℤ
unfolding billable_sum
traffic_billable_bytes mode bytes_in bytes_out =
    let received = clamp_negative bytes_in in
    let sent = clamp_negative bytes_out in
    if str_eq mode traffic_billing_mode_outbound then sent else billable_sum received sent

unfoldable pub traffic_billing_mode_label : String → String
traffic_billing_mode_label mode =
    if str_eq mode traffic_billing_mode_outbound
    then traffic_billing_mode_outbound
    else traffic_billing_mode_bidirectional

-- The halves of a total that was stored before the directions were.
unfoldable pub legacy_traffic_directions : ℤ → ℤ × ℤ
legacy_traffic_directions (pos total) = (pos (total / 2), pos (total - total / 2))
legacy_traffic_directions (negsuc _) = (pos 0, pos 0)

billable_sum_saturates :
    (a b : ℕ)
    → a ≤ max_int64
    → b ≤ max_int64
    → billable_sum (pos a) (pos b) ≡ pos (min max_int64 (a + b))
unfolding billable_sum
billable_sum_saturates a b h k = ground (arith, sub64_pos max_int64 b, add64_pos a b)

-- For int64 inputs the billed bytes are never negative and never wrap around: a negative direction
-- counts as 0, outbound mode bills what was sent, any other mode the sum, cut at the largest int64.
pub traffic_billable_bytes_exact :
    (mode : String) (bytes_in bytes_out : ℤ)
    → Fits64 bytes_in
    → Fits64 bytes_out
    → traffic_billable_bytes mode bytes_in bytes_out
      ≡ pos (
          if str_eq mode traffic_billing_mode_outbound
          then pos_part bytes_out
          else min max_int64 (pos_part bytes_in + pos_part bytes_out))
unfolding traffic_billable_bytes
traffic_billable_bytes_exact mode (pos a) (pos b) h k = ground (arith, billable_sum_saturates a b)
traffic_billable_bytes_exact mode (negsuc a) (pos b) h k =
    ground (arith, billable_sum_saturates 0 b)
traffic_billable_bytes_exact mode (pos a) (negsuc b) h k =
    ground (arith, billable_sum_saturates a 0)
traffic_billable_bytes_exact mode (negsuc a) (negsuc b) h k =
    ground (arith, billable_sum_saturates 0 0)
