-- ===== src/Failover/Examples.antt =====
-- Two lines, "a" and "b", which are their own keys.
use mathlib.Core.List.{Memᴰ, Perm}
use emby_panel.Prelude.{
  ◌≡◌, ◌≢◌, refl, false, some, List, [], ◌∷◌, ◌++◌, String, arith, All, eq_iff,
}
use emby_panel.Failover.{
  FailoverState, cooling, ordered, mark_failure, mark_success, preferred_target, set_key, find_key,
}
use emby_panel.Failover.Order.{Ready, Cooling, ordered_waiting_last}
use emby_panel.Failover.Memory.{succeeded_is_preferred}

abbrev own_key : String → String
own_key s = s

-- "b" answered, so that it is preferred to the primary "a".
abbrev on_backup : FailoverState
on_backup = record {
  preferred = "b";
  preferred_until = 900000000000;
  failed_until = λ k. 0;
  primary_probe_at = 10;
}

ordered_waiting_last_example :
    (ready waiting : List String) × ((ordered own_key ("a" ∷ "b" ∷ []) 20 on_backup).1
      ≡ ready ++ waiting)
    × All (Ready own_key 20 on_backup) ready
    × All (Cooling own_key 20 on_backup) waiting
    × Perm (ready ++ waiting) ("a" ∷ "b" ∷ [])
ordered_waiting_last_example = ordered_waiting_last own_key "a" "b" [] 20 on_backup

a_named : own_key "a" ≢ ""
a_named e = absurd (ground (arith, eq_iff "a" ""))

still_preferred :
    (preferred_target own_key ("a" ∷ "b" ∷ []) 30 (mark_failure own_key "a" 20 on_backup)).1
    ≡ some "b"
unfolding preferred_target mark_failure set_key find_key
still_preferred = refl

succeeded_is_preferred_example :
    let s' = mark_success own_key "a" 20 on_backup in
    (u : String) × (preferred_target own_key ("a" ∷ "b" ∷ []) 30 s' ≡ (s', some u))
    × (u ≡ "a")
    × (cooling s' "a" 30 ≡ false)
succeeded_is_preferred_example =
    succeeded_is_preferred own_key "a" ("a" ∷ "b" ∷ []) 20 30 on_backup a_named (Memᴰ.head refl)
      (ground arith) (ground arith)
