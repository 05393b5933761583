-- ===== src/Failover/Lines/Examples.antt =====
-- Lines whose texts need no trimming, and whose URLs are their own keys.
use Prim.Native.String.{len}
use emby_panel.Prelude.{ℕ, ◌≡◌, refl, true, false, ◌≤◌, ◌↔◌, List, [], ◌∷◌, String, length}
use emby_panel.Failover.Targets.{
  ok, Normalized, valid, parse_failover_targets, parse_backups, contains, Accepted,
  parse_failover_targets_exact,
}
use emby_panel.Failover.Lines.{
  FailoverLine, Texts, IsTrimming, normalize_failover_lines, normalize_failover_lines_stable,
  normalize_chosen, normalize_lines, normalize_line, enabled_targets, is_empty, legacy_lines,
  line_name_of,
}

abbrev own_key : String → String
own_key s = s

abbrev as_it_is : String → Normalized String ℕ
as_it_is s = valid s

abbrev plain : Texts
plain = record { trim = λ s. s; rune_count = len; line_name = λ i. "Line" }

plain-IsTrimming : IsTrimming plain
plain-IsTrimming = record {
  trim_trim = λ s. refl;
  trim-line_name = λ i. refl;
  line_name_named = λ i. refl;
}

abbrev lines : List FailoverLine
lines =
    record { name = "B"; url = "http://b"; enabled = true }
    ∷ record { name = "C"; url = "http://c"; enabled = false }
    ∷ []

abbrev backups : List String
backups = "http://b" ∷ []

parse_failover_targets_exact_example :
    (parse_failover_targets own_key as_it_is "http://a" ("http://b" ∷ [])
      ≡ ok ("http://a" ∷ "http://b" ∷ []))
    ↔ ((t : String) × (added : List String) × ("http://a" ∷ "http://b" ∷ [] ≡ t ∷ added)
        × (as_it_is "http://a" ≡ valid t)
        × (length backups ≤ 7)
        × Accepted own_key as_it_is ("http://b" ∷ []) (own_key t ∷ []) added)
parse_failover_targets_exact_example =
    parse_failover_targets_exact own_key as_it_is "http://a" ("http://b" ∷ [])
      ("http://a" ∷ "http://b" ∷ [])

lines_normal :
    normalize_failover_lines plain own_key as_it_is "http://a" lines []
    ≡ ok (lines, "http://b" ∷ [])
unfolding normalize_failover_lines normalize_chosen normalize_lines normalize_line enabled_targets
    is_empty legacy_lines line_name_of parse_failover_targets parse_backups contains
lines_normal = refl

normalize_failover_lines_stable_example :
    normalize_failover_lines plain own_key as_it_is "http://a" lines ("http://b" ∷ [])
    ≡ ok (lines, "http://b" ∷ [])
normalize_failover_lines_stable_example =
    normalize_failover_lines_stable plain own_key as_it_is "http://a" lines lines []
      ("http://b" ∷ []) plain-IsTrimming lines_normal
