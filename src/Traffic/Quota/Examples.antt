-- ===== src/Traffic/Quota/Examples.antt =====
-- A quota of 100 bytes of which 90 are used, and a reservation of 30.
use emby_panel.Prelude.{◌+◌, ◌≤◌, ◌≡◌, refl, true, some, [], arith, ◌⊎◌}
use emby_panel.Prelude.Int.{pos}
use emby_panel.Traffic.Quota.{QuotaState, Cycle}
use emby_panel.Traffic.Quota.Ledger.{IsCurrent}
use emby_panel.Traffic.Quota.Interleaving.{
  Ledger, held, reserving, reserves, Reach, here, next, usage_accounts,
}

abbrev nearly_full : QuotaState
nearly_full = record {
  quota = pos 100;
  cycle_start = 1;
  cycle_mode = "both";
  usage = pos 90;
  generation = 1;
  initialized = true;
}

abbrev this_month : Cycle
this_month = record { start = 1; mode = "both"; current_used = some (pos 90) }

abbrev at_start : Ledger
at_start = record { quota_state = nearly_full; outstanding = []; settled = 0 }

abbrev after_reserve : Ledger
after_reserve = reserving true (pos 30) this_month at_start

one_reservation : Reach this_month at_start after_reserve
one_reservation = next here (reserves true (pos 30) (ground arith) refl)

nearly_full-IsCurrent : IsCurrent this_month nearly_full
nearly_full-IsCurrent = ground arith

usage_accounts_example :
    (after_reserve.quota_state.usage
      ≡ pos (90 + after_reserve.settled + held after_reserve.outstanding))
    × ((90 + after_reserve.settled + held after_reserve.outstanding ≤ 100)
        ⊎ (after_reserve.settled + held after_reserve.outstanding ≡ 0))
usage_accounts_example =
    usage_accounts this_month 100 90 nearly_full after_reserve (ground arith) (ground arith)
      nearly_full-IsCurrent refl refl one_reservation
