-- ===== src/Traffic/Quota.antt =====
-- traffic_quota.go: the quota of a site, shared by all its connections. A reservation takes bytes
-- out of the quota before they are written; its settlement gives back what was not written.
-- An instant is a natural number. What the surrounding code hands over (the settings, the usage
-- that the database reports, or its failure) is the record `Cycle`.
mod Examples
pub mod Ledger
pub mod Interleaving
use emby_panel.Prelude.{
  ℕ, ◌+◌, ◌%◌, ◌==◌, Bool, true, false, not, ◌&&◌, ◌||◌, Option, none, some, String, str_eq,
  if◌then◌else◌,
}
use emby_panel.Prelude.Int.{ℤ, pos, ltb_ℤ, leb_ℤ, max_int64, modulus64, add64, sub64}
use emby_panel.Traffic.Billing.{traffic_billing_mode_outbound}

pub data QuotaError : Type 0 where
  quota_exceeded usage_unavailable : QuotaError

pub record QuotaState : Type 0 where
  pub quota : ℤ  -- inst.Site.TrafficQuota
  pub cycle_start : ℕ
  pub cycle_mode : String
  pub usage : ℤ
  pub generation : ℕ  -- uint64
  pub initialized : Bool

-- The billing cycle of a call: its start and mode, and currentTrafficCycleUsage, or its error.
pub record Cycle : Type 0 where
  pub start : ℕ
  pub mode : String
  pub current_used : Option ℤ

-- A reservation with a state; the zero value trafficQuotaReservation{} is `none`.
pub record Reservation : Type 0 where
  pub generation : ℕ
  pub reserved : ℤ
  pub outbound : Bool
  pub charged : Bool

-- The amount that a settlement counts: between 0 and what was reserved.
pub clamp_actual : ℤ → ℤ → ℤ
clamp_actual reserved actual =
    let shown = if ltb_ℤ actual (pos 0) then pos 0 else actual in
    if ltb_ℤ reserved shown then reserved else shown

-- The settlement after a change of cycle: what was written is charged to the new one.
pub settle_late : Bool → ℤ → QuotaState → QuotaState
settle_late outbound actual q =
    if ltb_ℤ (pos 0) actual && (outbound || not (str_eq q.cycle_mode traffic_billing_mode_outbound))
    then (if ltb_ℤ (sub64 (pos max_int64) actual) q.usage
        then record q { usage = pos max_int64 }
        else record q { usage = add64 q.usage actual })
    else q

-- The settlement within the cycle: what was not written goes back.
pub refund : ℤ → QuotaState → QuotaState
refund amount q =
    if leb_ℤ amount (pos 0)
    then q
    else if leb_ℤ q.usage amount
    then record q { usage = pos 0 }
    else record q { usage = sub64 q.usage amount }

pub settle_reserved : Reservation → ℤ → QuotaState → QuotaState
unfolding settle_late refund
settle_reserved r actual q =
    if not (q.generation == r.generation)
    then settle_late r.outbound actual q
    else if not r.charged
    then q
    else refund (sub64 r.reserved actual) q

unfoldable pub settle : Option Reservation → ℤ → QuotaState → QuotaState
unfolding clamp_actual settle_reserved
settle none actual q = q
settle (some r) actual q =
    if leb_ℤ r.reserved (pos 0) then q else settle_reserved r (clamp_actual r.reserved actual) q

-- What reserve returns beside the new state: the bytes allowed, the reservation, the error.
pub record Grant : Type 0 where
  pub allowed : ℤ
  pub reservation : Option Reservation
  pub error : Option QuotaError

-- A new cycle, or a new billing mode, reloads the usage and starts a generation.
pub roll_over : QuotaState → Cycle → Option QuotaState
roll_over q c =
    if not q.initialized || not (q.cycle_start == c.start) || not (str_eq q.cycle_mode c.mode)
    then elim c.current_used [
      | none ↦ none
      | some used ↦ some (record q {
        cycle_start = c.start;
        cycle_mode = c.mode;
        usage = used;
        generation = (q.generation + 1) % modulus64;
        initialized = true;
      })
    ]
    else some q

-- The part of reserve after the roll-over.
pub grant : Bool → ℤ → Cycle → QuotaState → QuotaState × Grant
grant outbound requested c q =
    let remaining = sub64 q.quota q.usage in
    let allowed = if ltb_ℤ remaining requested then remaining else requested in
    if not outbound && str_eq c.mode traffic_billing_mode_outbound
    then (
      q,
      record {
        allowed = requested;
        reservation = some (record {
          generation = q.generation;
          reserved = requested;
          outbound = false;
          charged = false;
        });
        error = none;
      },
    )
    else if leb_ℤ remaining (pos 0)
    then (q, record { allowed = pos 0; reservation = none; error = some quota_exceeded })
    else (
      record q { usage = add64 q.usage allowed },
      record {
        allowed = allowed;
        reservation = some (record {
          generation = q.generation;
          reserved = allowed;
          outbound = outbound;
          charged = true;
        });
        error = if ltb_ℤ allowed requested then some quota_exceeded else none;
      },
    )

pub reserve_in : Bool → ℤ → Cycle → QuotaState → Option QuotaState → QuotaState × Grant
unfolding grant
reserve_in outbound requested c q none =
    (q, record { allowed = pos 0; reservation = none; error = some usage_unavailable })
reserve_in outbound requested c _ (some q) = grant outbound requested c q

unfoldable pub reserve : Bool → ℤ → Cycle → QuotaState → QuotaState × Grant
reserve outbound requested c q =
    if leb_ℤ q.quota (pos 0) || leb_ℤ requested (pos 0)
    then (q, record { allowed = requested; reservation = none; error = none })
    else reserve_in outbound requested c q (roll_over q c)
