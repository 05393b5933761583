-- ===== src/Policy/Sources/Examples.antt =====
-- A profile name with nothing to fold.
use emby_panel.Prelude.{◌≡◌, refl}
use emby_panel.Policy.Sources.{Texts, ok, normalize_dynamic_profile}
use emby_panel.Policy.Sources.Normal.{KeepsNames}

abbrev plain : Texts
plain = record { folded = λ s. s }

plain-KeepsNames : KeepsNames plain
plain-KeepsNames = record { safe = refl; compatible = refl; extreme = refl }

safe_accepted : normalize_dynamic_profile plain "safe" ≡ ok "safe"
unfolding normalize_dynamic_profile
safe_accepted = refl
