-- ===== src/Policy/Sources/Normal.antt =====
-- Normalised names stay as they are.
use emby_panel.Prelude.{
  ◌≡◌, ◌⊎◌, refl, some, List, String, arith, str_eq, eq_iff, Bool-cases, inl, inr,
}
use emby_panel.Policy.Profiles.{
  dynamic_profile_safe, dynamic_profile_compatible, dynamic_profile_extreme,
}
use emby_panel.Policy.Sources.{
  ok, Texts, dynamic_discovery_sources_for_profile, normalize_dynamic_profile,
}

-- What the code relies on: the names that it knows are in lower case, with no space around them.
pub record KeepsNames (texts : Texts) : Type 0 where
  pub safe : texts.folded dynamic_profile_safe ≡ dynamic_profile_safe
  pub compatible : texts.folded dynamic_profile_compatible ≡ dynamic_profile_compatible
  pub extreme : texts.folded dynamic_profile_extreme ≡ dynamic_profile_extreme

Known : Texts → String → Type 0
Known texts profile =
    ((l : List String) × (dynamic_discovery_sources_for_profile profile ≡ some l))
    × (normalize_dynamic_profile texts profile ≡ ok profile)

profile_names_kept :
    (texts : Texts)
    → KeepsNames texts
    → Known texts dynamic_profile_safe
      × Known texts dynamic_profile_compatible
      × Known texts dynamic_profile_extreme
unfolding Known normalize_dynamic_profile dynamic_discovery_sources_for_profile
profile_names_kept texts keeps = (
  ((_, refl), rw keeps.safe refl),
  ((_, refl), rw keeps.compatible refl),
  ((_, refl), rw keeps.extreme refl),
)

accepted_profile :
    (texts : Texts) (value profile : String)
    → normalize_dynamic_profile texts value ≡ ok profile
    → (profile ≡ dynamic_profile_safe)
      ⊎ ((profile ≡ dynamic_profile_compatible) ⊎ (profile ≡ dynamic_profile_extreme))
unfolding normalize_dynamic_profile
accepted_profile texts value profile h =
    let name = texts.folded value in
    elim (Bool-cases (str_eq name "")) [
      | inl empty ↦ inr (inl (ground arith))
      | inr named ↦ elim (Bool-cases (str_eq name dynamic_profile_safe)) [
        | inl safe ↦ inl (ground (arith, eq_iff name dynamic_profile_safe))
        | inr unsafe ↦ elim (Bool-cases (str_eq name dynamic_profile_compatible)) [
          | inl compatible ↦ inr (inl (ground (arith, eq_iff name dynamic_profile_compatible)))
          | inr other ↦ inr (inr (ground (arith, eq_iff name dynamic_profile_extreme)))
        ]
      ]
    ]

-- Whatever was entered as a profile, what is accepted is a profile of the catalog, and normalises
-- to itself.
pub normalize_dynamic_profile_known :
    (texts : Texts) (value profile : String)
    → KeepsNames texts
    → normalize_dynamic_profile texts value ≡ ok profile
    → ((l : List String) × (dynamic_discovery_sources_for_profile profile ≡ some l))
      × (normalize_dynamic_profile texts profile ≡ ok profile)
unfolding Known
normalize_dynamic_profile_known texts value profile keeps h =
    let (safe, compatible, extreme) = profile_names_kept texts keeps in
    elim (accepted_profile texts value profile h) [
      | inl e ↦ rw e safe
      | inr (inl e) ↦ rw e compatible
      | inr (inr e) ↦ rw e extreme
    ]
