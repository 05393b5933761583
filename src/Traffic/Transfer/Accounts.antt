-- ===== src/Traffic/Transfer/Accounts.antt =====
-- A metered write takes exactly its bytes out of the quota.
use emby_panel.Prelude.{
  ℕ, ◌+◌, ◌-◌, ◌≤◌, ◌<◌, ◌≡◌, ◌==◌, true, false, Option, none, some, arith, min, leb, ltb, ap, refl,
  Bool-cases, inl, inr, if◌then◌else◌,
}
use emby_panel.Prelude.Int.{pos, max_int64, sub64_pos}
use emby_panel.Traffic.Quota.{QuotaState, Cycle, Reservation, quota_exceeded, settle}
use emby_panel.Traffic.Quota.Ledger.{IsCurrent, reserve_metered, grant_room, grant_exhausted}
use emby_panel.Traffic.Transfer.{
  Transfer, TransferError, Meters, stream_failed, quota_failed, add_metered_bytes_with_meter,
  send_reserved, final_error, write,
}

abbrev pub not_sent : Option QuotaState → Meters → Transfer
not_sent q m = record { quota = q; meters = m }

-- The reservation that a write of `n` bytes holds while the stream is busy.
abbrev sending : QuotaState → ℕ → Reservation
sending q n = record {
  generation = q.generation;
  reserved = pos n;
  outbound = true;
  charged = true;
}

settle-sending :
    (q : QuotaState) (u k n : ℕ)
    → 0 < k
    → n ≤ k
    → u + k ≤ max_int64
    → settle (some (sending q k)) (pos n) (record q { usage = pos (u + k) })
      ≡ record q { usage = pos (u + n) }
unfolding settle
settle-sending q u k n h le fits = ground (arith, sub64_pos k n, sub64_pos (u + k) (k - n))

-- What a write of `size` bytes reports that offered `k` of them, of which the stream took `n`: the
-- stream's own error, or else the quota if the slice was cut and the stream took all of its part.
abbrev pub reported : {E : Type 0} → ℕ → ℕ → ℕ → Option E → Option (TransferError E)
reported size k n (some x) = some (stream_failed x)
reported size k n none =
    if leb size k then none else if ltb n k then none else some (quota_failed quota_exceeded)

module _ {E : Type 0} (stream : ℕ → ℕ × Option E) (c : Cycle) (q : QuotaState) (Q u size : ℕ)
    (current : IsCurrent c q) (quota : q.quota ≡ pos Q) (usage : q.usage ≡ pos u)
    (large : Q ≤ max_int64) (positive : 0 < size) (fits : size ≤ max_int64) where
  -- Once the quota of the current cycle is used up, a write of a positive size sends nothing, says
  -- so and changes nothing.
  pub write_exhausted :
      (at : ℕ) (m : Meters)
      → Q ≤ u
      → 0 < Q
      → u ≤ max_int64
      → write stream at size c (not_sent (some q) m)
        ≡ (not_sent (some q) m, 0, some (quota_failed quota_exceeded))
  unfolding write
  write_exhausted at m full h k =
      rw
        (
          reserve_metered true (pos size) c q current (ground arith),
          grant_exhausted c q Q u size quota usage large positive full k,
        )
        refl

  write_sends :
      (at : ℕ) (m : Meters)
      → u < Q
      → let k = min size (Q - u) in
        write stream at size c (not_sent (some q) m)
        ≡ send_reserved stream false at k
            (ltb k size)
            (some (sending q k))
            (record q { usage = pos (u + k) })
            m
  unfolding write
  write_sends at m room =
      rw
        (
          reserve_metered true (pos size) c q current (ground arith),
          grant_room c q Q u size quota usage large positive room fits,
        )
        (ground arith)

  final_error-reported :
      (k n : ℕ) (x : Option E) → n ≤ k → final_error stream (ltb k size) n k x ≡ reported size k n x
  unfolding final_error
  final_error-reported k n (some x) h = refl
  final_error-reported k n none h = elim (Bool-cases (leb size k)) [
    | inl whole ↦ let not_cut : ltb k size ≡ false = ground arith in rw (whole, not_cut) refl
    | inr cut ↦
        let is_cut : ltb k size ≡ true = ground arith in
        elim (Bool-cases (ltb n k)) [
          | inl less ↦
              let part : (n == k) ≡ false = ground arith in rw (cut, is_cut, less, part) refl
          | inr all ↦
              let whole : (n == k) ≡ true = ground arith in rw (cut, is_cut, all, whole) refl
        ]
  ]

  -- While the quota of the current cycle has room, a write of a positive size offers the stream
  -- what fits into it and, for a stream that takes no more than it is offered, charges exactly what
  -- the stream took; it reports the stream's error, and without one the quota exactly if the slice
  -- was cut and the stream took the whole of its part.
  pub write_charges :
      (at : ℕ) (m : Meters)
      → u < Q
      → let offered = min size (Q - u) in
        (stream offered).0 ≤ offered
        → let (t, n, e) = write stream at size c (not_sent (some q) m) in
          (n ≡ (stream offered).0)
          × (t
              ≡ not_sent
                  (some (record q { usage = pos (u + n) }))
                  (add_metered_bytes_with_meter false at n m))
          × (e ≡ reported size offered n (stream offered).1)
  unfolding send_reserved
  write_charges at m room contract =
      let k = min size (Q - u) in
      let settled = settle-sending q u k (stream k).0 (omega arith) contract (omega arith) in
      rw (write_sends at m room, send_reserved)
        (
          refl,
          ap
              (λ (x : QuotaState). record {
                quota = some x;
                meters = add_metered_bytes_with_meter false at (stream k).0 m;
              })
              settled,
          final_error-reported k (stream k).0 (stream k).1 contract,
        )
