-- ===== src/Traffic/Transfer.antt =====
-- proxy_io.go: the metered response writer and request reader. A slice is its length: neither
-- looks at the bytes. The stream below (the ResponseWriter, the request body) is a parameter,
-- which says for a slice of that length how many bytes went through, and the error.
mod Examples
pub mod Accounts
use emby_panel.Prelude.{
  ℕ, ◌+◌, ◌==◌, ◌&&◌, Bool, true, false, not, Option, none, some, leb, ltb, if◌then◌else◌,
}
use emby_panel.Prelude.Int.{ℤ, pos, pos_part, ltb_ℤ, ==_ℤ}
use emby_panel.Traffic.Quota.{QuotaState, QuotaError, Cycle, Reservation, Grant, reserve, settle}
use emby_panel.Traffic.Meter.{Counters, RequestTrafficMeter, plus64, add}

-- An error of the stream below, or of the quota.
pub data TransferError (E : Type 0) : Type 0 where
  stream_failed : E → TransferError E
  quota_failed : QuotaError → TransferError E

-- The counters that a writer or reader may have; `none` is nil.
pub record Meters : Type 0 where
  pub primary : Option ℕ
  pub cumulative : Option ℕ
  pub meter : Option RequestTrafficMeter
  pub counters : Counters

add_atomic : ℕ → Option ℕ → Option ℕ
add_atomic n none = none
add_atomic n (some a) = some (plus64 a n)

pub add_metered_bytes : ℕ → Meters → Meters
unfolding add_atomic
add_metered_bytes n m =
    if leb n 0
    then m
    else record m { primary = add_atomic n m.primary; cumulative = add_atomic n m.cumulative }

meter_bytes : Bool → ℕ → ℕ → Option RequestTrafficMeter → Meters → Meters
unfolding add_metered_bytes
meter_bytes inbound at n none m = add_metered_bytes n m
meter_bytes inbound at n (some meter) m =
    let (c, meter') =
      add (if inbound then n else 0) (if inbound then 0 else n) at m.counters meter in
    record m { meter = some meter'; counters = c; cumulative = add_atomic n m.cumulative }

-- `at` is the time.Now() of addIn and addOut.
pub add_metered_bytes_with_meter : Bool → ℕ → ℕ → Meters → Meters
unfolding meter_bytes
add_metered_bytes_with_meter inbound at n m =
    if leb n 0 then m else meter_bytes inbound at n m.meter m

pub record Transfer : Type 0 where
  pub quota : Option QuotaState
  pub meters : Meters

module _ {E : Type 0} (stream : ℕ → ℕ × Option E) where
  lift_error : Option E → Option (TransferError E)
  lift_error none = none
  lift_error (some e) = some (stream_failed e)

  lift_quota_error : Option QuotaError → Option (TransferError E)
  lift_quota_error none = none
  lift_quota_error (some e) = some (quota_failed e)

  -- After a truncated slice went through whole, the quota is the error.
  pub final_error : Bool → ℕ → ℕ → Option E → Option (TransferError E)
  unfolding lift_error
  final_error truncated n offered none =
      if truncated && n == offered then some (quota_failed QuotaError.quota_exceeded) else none
  final_error truncated n offered (some e) = some (stream_failed e)

  -- The part after the reservation: the slice of `offered` bytes goes through the stream.
  pub send_reserved :
      Bool
      → ℕ
      → ℕ
      → Bool
      → Option Reservation
      → QuotaState
      → Meters
      → Transfer × ℕ × Option (TransferError E)
  unfolding final_error
  send_reserved inbound at offered truncated reservation q m =
      let (n, e) = stream offered in
      (
        record {
          quota = some (settle reservation (pos n) q);
          meters = add_metered_bytes_with_meter inbound at n m;
        },
        n,
        final_error truncated n offered e,
      )

  pub send_metered :
      Bool → ℕ → ℕ → Cycle → Option QuotaState → Meters → Transfer × ℕ × Option (TransferError E)
  unfolding lift_quota_error lift_error
  send_metered inbound at size c none m =
      let (n, e) = stream size in
      (
        record { quota = none; meters = add_metered_bytes_with_meter inbound at n m },
        n,
        lift_error e,
      )
  send_metered inbound at size c (some q) m =
      let (q', g) = reserve (not inbound) (pos size) c q in
      if ==_ℤ g.allowed (pos 0)
      then (record { quota = some q'; meters = m }, 0, lift_quota_error g.error)
      else if ltb_ℤ g.allowed (pos size)
      then send_reserved inbound at (pos_part g.allowed) true g.reservation q' m
      else send_reserved inbound at size false g.reservation q' m

  -- meteredWriter.Write
  unfoldable pub write : ℕ → ℕ → Cycle → Transfer → Transfer × ℕ × Option (TransferError E)
  unfolding send_metered
  write at size c t = send_metered false at size c t.quota t.meters

  -- meteredReader.Read
  unfoldable pub read : ℕ → ℕ → Cycle → Transfer → Transfer × ℕ × Option (TransferError E)
  unfolding send_metered
  read at size c t = send_metered true at size c t.quota t.meters
