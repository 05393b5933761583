-- ===== src/Traffic/Quota/Interleaving.antt =====
-- The quota over any interleaving of reservations and settlements within one billing cycle.
use emby_panel.Prelude.{
  ℕ, ◌-◌, ◌+◌, ◌≤◌, ◌<◌, ◌≡◌, refl, sym, ap, ◌∙◌, Bool, false, Option, none, some, List, [], ◌∷◌,
  ◌++◌, arith, ◌⊎◌, All, Bool-cases, ◌||◌, inl, inr,
}
use mathlib.Core.Path.{subst}
use emby_panel.Prelude.Int.{ℤ, pos, negsuc, max_int64, Fits64, leb_ℤ}
use emby_panel.Traffic.Quota.{QuotaState, Cycle, Reservation, settle, grant, reserve}
use emby_panel.Traffic.Quota.Ledger.{
  IsCurrent, IsHeld, HoldsReservation, charge, charge_of, kept, reserve_unmetered, reserve_metered,
  grant_usage, grant-IsHeld, grant_frame, settle_usage, settle_frame,
}

-- The shared state, the reservations that wait for their settlement, and the bytes kept by those
-- that were settled.
pub record Ledger : Type 0 where
  pub quota_state : QuotaState
  pub outstanding : List Reservation
  pub settled : ℕ

abbrev pub held : List Reservation → ℕ
held [] = 0
held (r ∷ rs) = charge r + held rs

abbrev pub with_reservation : Option Reservation → List Reservation → List Reservation
with_reservation none rs = rs
with_reservation (some r) rs = r ∷ rs

pub reserving : Bool → ℤ → Cycle → Ledger → Ledger
reserving outbound requested c l =
    let (q, g) = reserve outbound requested c l.quota_state in
    record {
      quota_state = q;
      outstanding = with_reservation g.reservation l.outstanding;
      settled = l.settled;
    }

pub settling : List Reservation → Reservation → List Reservation → ℤ → Ledger → Ledger
settling before r after actual l = record {
  quota_state = settle (some r) actual l.quota_state;
  outstanding = before ++ after;
  settled = l.settled + kept r actual;
}

-- Connections reserve and settle in any order, each reservation once.
pub data Step (c : Cycle) (l : Ledger) (m : Ledger) : Type 0 where
  reserves :
      (outbound : Bool) (requested : ℤ)
      → Fits64 requested
      → m ≡ reserving outbound requested c l
      → Step c l m
  settles :
      (before : List Reservation) (r : Reservation) (after : List Reservation) (actual : ℤ)
      → Fits64 actual
      → l.outstanding ≡ before ++ r ∷ after
      → m ≡ settling before r after actual l
      → Step c l m

pub data Reach (c : Cycle) (l : Ledger) : Ledger → Type 0 where
  here : Reach c l l
  next : {m n : Ledger} → Reach c l m → Step c m n → Reach c l n

-- `base` is the usage at the start of the cycle.
pub record Inv (c : Cycle) (Q base : ℕ) (l : Ledger) : Type 0 where
  pub current : IsCurrent c l.quota_state
  pub quota : l.quota_state.quota ≡ pos Q
  pub usage : l.quota_state.usage ≡ pos (base + l.settled + held l.outstanding)
  pub within : (base + l.settled + held l.outstanding ≤ Q) ⊎ (l.settled + held l.outstanding ≡ 0)
  pub reservations : All (IsHeld l.quota_state.generation) l.outstanding

held-append :
    (xs : List Reservation) (r : Reservation) (ys : List Reservation)
    → held (xs ++ r ∷ ys) ≡ charge r + held (xs ++ ys)
held-append [] r ys = omega arith
held-append (x ∷ xs) r ys = omega (arith, held-append xs r ys)

All-without :
    (P : Reservation → Type 0) (xs : List Reservation) (r : Reservation) (ys : List Reservation)
    → All P (xs ++ r ∷ ys)
    → P r × All P (xs ++ ys)
All-without P [] r ys h = h
All-without P (x ∷ xs) r ys h = let (own, rest) = All-without P xs r ys h.1 in (own, (h.0, rest))

-- The fields that no call changes.
abbrev SameAccount : QuotaState → QuotaState → Type 0
SameAccount q' q =
    (q'.quota ≡ q.quota)
    × (q'.generation ≡ q.generation)
    × (q'.initialized ≡ q.initialized)
    × (q'.cycle_start ≡ q.cycle_start)
    × (q'.cycle_mode ≡ q.cycle_mode)

kept-le-charge : (r : Reservation) (actual : ℤ) → kept r actual ≤ charge r
kept-le-charge r actual = ground arith

settled_within :
    (a b x y Q base : ℕ)
    → a + b ≤ x + y
    → (base + x + y ≤ Q) ⊎ (x + y ≡ 0)
    → (base + a + b ≤ Q) ⊎ (a + b ≡ 0)
settled_within a b x y Q base h (inl k) = inl (omega arith)
settled_within a b x y Q base h (inr k) = inr (omega arith)

module _ (c : Cycle) (Q base : ℕ) (large : Q ≤ max_int64) (start : base ≤ max_int64) where
  Inv-small : {l : Ledger} → Inv c Q base l → base + l.settled + held l.outstanding ≤ max_int64
  Inv-small v = omega (arith, v.within)

  granted-Inv :
      (o : Option Reservation) (q' : QuotaState) (l : Ledger)
      → Inv c Q base l
      → SameAccount q' l.quota_state
      → q'.usage ≡ pos (base + l.settled + held l.outstanding + charge_of o)
      → charge_of o ≤ Q - (base + l.settled + held l.outstanding)
      → HoldsReservation l.quota_state.generation o
      → Inv c Q base (record {
        quota_state = q';
        outstanding = with_reservation o l.outstanding;
        settled = l.settled;
      })
  granted-Inv none q' l v s u b i = record {
    current = ground arith;
    quota = ground arith;
    usage = ground arith;
    within = v.within;
    reservations = rw (sym s.1) at v.reservations;
  }
  granted-Inv (some r) q' l v s u b i = record {
    current = ground arith;
    quota = ground arith;
    usage = ground arith;
    within = ground arith;
    reservations = (rw (sym s.1) at i, rw (sym s.1) at v.reservations);
  }

  granting-Inv :
      (outbound : Bool) (requested : ℤ) (l : Ledger)
      → Fits64 requested
      → Inv c Q base l
      → base + l.settled + held l.outstanding ≤ max_int64
      → leb_ℤ requested (pos 0) ≡ false
      → Inv c Q base (
          let (q, g) = grant outbound requested c l.quota_state in
          record {
            quota_state = q;
            outstanding = with_reservation g.reservation l.outstanding;
            settled = l.settled;
          })
  granting-Inv outbound (negsuc n) l fits v small h = absurd (ground arith)
  granting-Inv outbound (pos n) l fits v small h =
      let used = base + l.settled + held l.outstanding in
      let positive : 0 < n = ground arith in
      let (usage, room) =
        grant_usage outbound c l.quota_state Q used v.quota v.usage large small n positive fits.0 in
      granted-Inv _ _ l v
        (grant_frame outbound c l.quota_state Q used v.quota v.usage large small n) usage room
        (grant-IsHeld outbound c l.quota_state Q used v.quota v.usage large small n positive fits.0)

  reserving-Inv :
      (outbound : Bool) (requested : ℤ) (l : Ledger)
      → Fits64 requested
      → Inv c Q base l
      → base + l.settled + held l.outstanding ≤ max_int64
      → Inv c Q base (reserving outbound requested c l)
  unfolding reserving
  reserving-Inv outbound requested l fits v small =
      elim (Bool-cases (leb_ℤ l.quota_state.quota (pos 0) || leb_ℤ requested (pos 0))) [
        | inl skip ↦ rw (reserve_unmetered outbound requested c l.quota_state skip) v
        | inr metered ↦
            rw (reserve_metered outbound requested c l.quota_state v.current metered)
              (granting-Inv outbound requested l fits v small (ground arith))
      ]

  settling-Inv :
      (before : List Reservation) (r : Reservation) (after : List Reservation) (actual : ℤ)
      (l : Ledger)
      → Fits64 actual
      → l.outstanding ≡ before ++ r ∷ after
      → Inv c Q base l
      → base + l.settled + held l.outstanding ≤ max_int64
      → Inv c Q base (settling before r after actual l)
  unfolding settling
  settling-Inv before r after actual l fits split v small =
      let counted : held l.outstanding ≡ charge r + held (before ++ after) =
        ap held split ∙ held-append before r after in
      let own =
        All-without (IsHeld l.quota_state.generation) before r after
          (subst (All (IsHeld l.quota_state.generation)) split v.reservations) in
      let u = base + l.settled + held (before ++ after) in
      let usage : l.quota_state.usage ≡ pos (u + charge r) = v.usage ∙ ap pos (omega arith) in
      let written = settle_usage r l.quota_state u usage own.0 (omega arith) actual fits in
      let same = settle_frame r l.quota_state u usage own.0 (omega arith) actual in
      record {
        current = record {
          initialized = same.2 ∙ v.current.initialized;
          start = same.3 ∙ v.current.start;
          mode = same.4 ∙ v.current.mode;
        };
        quota = same.0 ∙ v.quota;
        usage = written ∙ ap pos (omega arith);
        within =
            settled_within (l.settled + kept r actual) (held (before ++ after)) l.settled
              (held l.outstanding) Q base (omega (arith, kept-le-charge r actual)) v.within;
        reservations = rw (sym same.1) at own.1;
      }

  Step-Inv : {l m : Ledger} → Step c l m → Inv c Q base l → Inv c Q base m
  Step-Inv {l} (reserves outbound requested fits e) v =
      rw e (reserving-Inv outbound requested l fits v (Inv-small v))
  Step-Inv {l} (settles before r after actual fits split e) v =
      rw e (settling-Inv before r after actual l fits split v (Inv-small v))

  Reach-Inv : {l m : Ledger} → Inv c Q base l → Reach c l m → Inv c Q base m
  Reach-Inv v here = v
  Reach-Inv v (next r s) = Step-Inv s (Reach-Inv v r)

-- However reservations and settlements of one billing cycle interleave, from a ledger with nothing
-- reserved or settled: the usage is exactly the usage at the start, the bytes that the settlements
-- kept and the bytes still reserved; and it passes the quota only if it did so at the start and
-- nothing was granted since.
pub usage_accounts :
    (c : Cycle) (Q base : ℕ) (q : QuotaState) (m : Ledger)
    → Q ≤ max_int64
    → base ≤ max_int64
    → IsCurrent c q
    → q.quota ≡ pos Q
    → q.usage ≡ pos base
    → Reach c (record { quota_state = q; outstanding = []; settled = 0 }) m
    → (m.quota_state.usage ≡ pos (base + m.settled + held m.outstanding))
      × ((base + m.settled + held m.outstanding ≤ Q) ⊎ (m.settled + held m.outstanding ≡ 0))
usage_accounts c Q base q m large start current quota usage r =
    let v =
      Reach-Inv c Q base large start {l = record { quota_state = q; outstanding = []; settled = 0 }}
        (record {
          current = current;
          quota = quota;
          usage = usage ∙ ap pos (omega arith);
          within = inr refl;
          reservations = tt;
        })
        r in
    (v.usage, v.within)
