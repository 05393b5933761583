-- ===== src/Traffic/Quota/Ledger.antt =====
-- The quota over any interleaving of reservations and settlements of one billing cycle.
use emby_panel.Prelude.{
  ltb, ℕ, ◌+◌, ◌-◌, ◌≤◌, ◌<◌, ◌≡◌, Bool, true, false, Option, none, some, arith, min, str_eq,
  eq_iff, not, ◌||◌, ◌↔◌, ◌≢◌, if◌then◌else◌,
}
use emby_panel.Prelude.Int.{
  ℤ, pos, leb_ℤ, pos_part, max_int64, Fits64, add64_pos, sub64_pos, sub64-sub_ℕ,
}
use emby_panel.Traffic.Billing.{traffic_billing_mode_outbound}
use emby_panel.Traffic.Quota.{
  QuotaState, Cycle, Reservation, quota_exceeded, settle_late, settle, roll_over, grant, reserve_in,
  reserve,
}

-- The state is that of the cycle, so a reservation starts no generation.
pub record IsCurrent (c : Cycle) (q : QuotaState) : Type 0 where
  pub initialized : q.initialized ≡ true
  pub start : q.cycle_start ≡ c.start
  pub mode : q.cycle_mode ≡ c.mode

pub roll_over_current : (c : Cycle) (q : QuotaState) → IsCurrent c q → roll_over q c ≡ some q
unfolding roll_over
roll_over_current c q h = ground (arith, eq_iff q.cycle_mode c.mode)

-- What a reservation takes out of the quota.
abbrev pub charge : Reservation → ℕ
charge r = if r.charged then pos_part r.reserved else 0

abbrev pub charge_of : Option Reservation → ℕ
charge_of none = 0
charge_of (some r) = charge r

-- A reservation of this generation, for a positive amount.
pub record IsHeld (generation : ℕ) (r : Reservation) : Type 0 where
  pub same : r.generation ≡ generation
  pub positive : 0 < pos_part r.reserved
  pub fits : pos_part r.reserved ≤ max_int64

abbrev pub HoldsReservation : ℕ → Option Reservation → Type 0
HoldsReservation generation none = Unit
HoldsReservation generation (some r) = IsHeld generation r

-- What a settlement leaves charged: the bytes written, between 0 and the reservation.
abbrev pub kept : Reservation → ℤ → ℕ
kept r actual = if r.charged then min (pos_part actual) (pos_part r.reserved) else 0

-- One call of reserve: the charge that it takes out and what its reservation holds.
module _ (outbound : Bool) (c : Cycle) (q : QuotaState) (Q u : ℕ) (quota : q.quota ≡ pos Q)
    (usage : q.usage ≡ pos u) (large : Q ≤ max_int64) (fits : u ≤ max_int64) where
  pub grant_usage :
      (n : ℕ)
      → 0 < n
      → n ≤ max_int64
      → let (q', g) = grant outbound (pos n) c q in
        (q'.usage ≡ pos (u + charge_of g.reservation)) × (charge_of g.reservation ≤ Q - u)
  unfolding grant
  grant_usage n h k = ground (arith, sub64-sub_ℕ Q u, add64_pos u n, add64_pos u (Q - u))

  pub grant-IsHeld :
      (n : ℕ)
      → 0 < n
      → n ≤ max_int64
      → HoldsReservation q.generation (grant outbound (pos n) c q).1.reservation
  unfolding grant
  grant-IsHeld n h k = ground (arith, sub64-sub_ℕ Q u)

  pub grant_frame :
      (n : ℕ)
      → let q' = (grant outbound (pos n) c q).0 in
        (q'.quota ≡ q.quota)
        × (q'.generation ≡ q.generation)
        × (q'.initialized ≡ q.initialized)
        × (q'.cycle_start ≡ q.cycle_start)
        × (q'.cycle_mode ≡ q.cycle_mode)
  unfolding grant
  grant_frame n = ground arith

  -- On the path that bills the direction: the smaller of the request and what is left is granted
  -- and charged, and an error comes exactly when that is less than the request.
  pub grant_exact :
      (n : ℕ)
      → 0 < n
      → n ≤ max_int64
      → outbound || not (str_eq c.mode traffic_billing_mode_outbound) ≡ true
      → let (q', g) = grant outbound (pos n) c q in
        (g.allowed ≡ pos (min n (Q - u)))
        × (q'.usage ≡ pos (u + min n (Q - u)))
        × ((g.error ≡ none) ↔ (n ≤ Q - u))
  unfolding grant
  grant_exact n h k b = ground (arith, sub64-sub_ℕ Q u, add64_pos u n, add64_pos u (Q - u))

-- A settlement in the generation that granted the reservation keeps what was written and gives
-- the rest back.
module _ (r : Reservation) (q : QuotaState) (u : ℕ) (usage : q.usage ≡ pos (u + charge r))
    (held : IsHeld q.generation r) (fits : u + charge r ≤ max_int64) where
  pub settle_usage :
      (actual : ℤ) → Fits64 actual → (settle (some r) actual q).usage ≡ pos (u + kept r actual)
  unfolding settle
  settle_usage actual h = ground (
    arith,
    held.same,
    held.positive,
    held.fits,
    sub64_pos (pos_part r.reserved) (pos_part actual),
    sub64_pos (pos_part r.reserved) 0,
    sub64_pos (pos_part r.reserved) (pos_part r.reserved),
    sub64_pos (u + pos_part r.reserved) (pos_part r.reserved - pos_part actual),
    sub64_pos (u + pos_part r.reserved) (pos_part r.reserved - 0),
  )

  pub settle_frame :
      (actual : ℤ)
      → let q' = settle (some r) actual q in
        (q'.quota ≡ q.quota)
        × (q'.generation ≡ q.generation)
        × (q'.initialized ≡ q.initialized)
        × (q'.cycle_start ≡ q.cycle_start)
        × (q'.cycle_mode ≡ q.cycle_mode)
  unfolding settle
  settle_frame actual = ground arith

-- A site without a quota, and an empty request, pass unreserved.
pub reserve_unmetered :
    (outbound : Bool) (requested : ℤ) (c : Cycle) (q : QuotaState)
    → leb_ℤ q.quota (pos 0) || leb_ℤ requested (pos 0) ≡ true
    → reserve outbound requested c q
      ≡ (q, record { allowed = requested; reservation = none; error = none })
unfolding reserve
reserve_unmetered outbound requested c q h = rw h

pub reserve_metered :
    (outbound : Bool) (requested : ℤ) (c : Cycle) (q : QuotaState)
    → IsCurrent c q
    → leb_ℤ q.quota (pos 0) || leb_ℤ requested (pos 0) ≡ false
    → reserve outbound requested c q ≡ grant outbound requested c q
unfolding reserve_in reserve
reserve_metered outbound requested c q v h = rw (h, roll_over_current c q v)

-- The two outcomes of a request for sent bytes.
module _ (c : Cycle) (q : QuotaState) (Q u n : ℕ) (quota : q.quota ≡ pos Q)
    (usage : q.usage ≡ pos u) (large : Q ≤ max_int64) (positive : 0 < n) where
  pub grant_room :
      u < Q
      → n ≤ max_int64
      → grant true (pos n) c q ≡ (
        record q { usage = pos (u + min n (Q - u)) },
        record {
          allowed = pos (min n (Q - u));
          reservation = some (record {
            generation = q.generation;
            reserved = pos (min n (Q - u));
            outbound = true;
            charged = true;
          });
          error = if ltb (Q - u) n then some quota_exceeded else none;
        },
      )
  unfolding grant
  grant_room room fits = ground (arith, sub64-sub_ℕ Q u, add64_pos u n, add64_pos u (Q - u))

  pub grant_exhausted :
      Q ≤ u
      → u ≤ max_int64
      → grant true (pos n) c q
        ≡ (q, record { allowed = pos 0; reservation = none; error = some quota_exceeded })
  unfolding grant
  grant_exhausted full fits = ground (arith, sub64-sub_ℕ Q u)

-- A reservation that outlives its billing cycle: what was written is charged to the cycle in
-- force, up to the largest int64, unless that cycle bills sent bytes only and these were received.
-- What was not written is not given back to the new cycle.
pub settle_after_rollover :
    (r : Reservation) (q : QuotaState) (u k n : ℕ)
    → r.generation ≢ q.generation
    → r.reserved ≡ pos k
    → 0 < k
    → k ≤ max_int64
    → n ≤ max_int64
    → q.usage ≡ pos u
    → u ≤ max_int64
    → (settle (some r) (pos n) q).usage
      ≡ pos (
          if r.outbound || not (str_eq q.cycle_mode traffic_billing_mode_outbound)
          then min max_int64 (u + min n k)
          else u)
unfolding settle settle_late
settle_after_rollover r q u k n old reserved h large written usage fits =
    ground (arith, sub64_pos max_int64 n, sub64_pos max_int64 k, add64_pos u n, add64_pos u k)
