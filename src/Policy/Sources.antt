-- ===== src/Policy/Sources.antt =====
-- dynamic_policy.go: profile names and discovery sources, as they are entered and stored. The text
-- operations of package strings are parameters; an error is its kind.
mod Examples
pub mod Normal
use emby_panel.Prelude.{
  Bool, true, false, not, ◌&&◌, ◌||◌, Option, none, some, List, [], ◌∷◌, String, str_eq,
  if◌then◌else◌,
}
use emby_panel.Policy.Profiles.{
  dynamic_profile_safe, dynamic_profile_compatible, dynamic_profile_extreme, source_redirect,
  source_playback_info, source_hls, source_dash, all_dynamic_discovery_sources,
}

pub data PolicyError : Type 0 where
  unknown_profile unsupported_source repeated_source unavailable_source : PolicyError

pub data Checked (A : Type 0) : Type 0 where
  ok : A → Checked A
  err : PolicyError → Checked A

-- strings.ToLower(strings.TrimSpace(s))
pub record Texts : Type 0 where
  pub folded : String → String

-- dynamicDiscoverySourceEnabled, and seen[source] of a list.
unfoldable pub dynamic_discovery_source_enabled : List String → String → Bool
dynamic_discovery_source_enabled [] source = false
dynamic_discovery_source_enabled (candidate ∷ sources) source =
    if str_eq candidate source then true else dynamic_discovery_source_enabled sources source

pub dynamic_discovery_sources_for_profile : String → Option (List String)
dynamic_discovery_sources_for_profile profile =
    if str_eq profile dynamic_profile_safe
    then some (source_redirect ∷ source_playback_info ∷ [])
    else if str_eq profile dynamic_profile_compatible || str_eq profile dynamic_profile_extreme
    then some all_dynamic_discovery_sources
    else none

all_allowed : List String → List String → Checked Unit
all_allowed allowed [] = ok tt
all_allowed allowed (source ∷ sources) =
    if dynamic_discovery_source_enabled allowed source
    then all_allowed allowed sources
    else err unavailable_source

pub validate_dynamic_discovery_sources_for_profile : String → List String → Checked Unit
unfolding all_allowed
validate_dynamic_discovery_sources_for_profile profile sources =
    elim (dynamic_discovery_sources_for_profile profile) [
      | none ↦ err unknown_profile
      | some allowed ↦ all_allowed allowed sources
    ]

-- for _, source := range allDynamicDiscoverySources(), of those that were seen
pub in_catalog_order : List String → List String → List String
in_catalog_order seen [] = []
in_catalog_order seen (source ∷ sources) =
    let rest = in_catalog_order seen sources in
    if dynamic_discovery_source_enabled seen source then source ∷ rest else rest

module _ (texts : Texts) where
  unfoldable pub normalize_dynamic_profile : String → Checked String
  normalize_dynamic_profile value =
      let profile = texts.folded value in
      if str_eq profile ""
      then ok dynamic_profile_compatible
      else if str_eq profile dynamic_profile_safe
          || str_eq profile dynamic_profile_compatible
          || str_eq profile dynamic_profile_extreme
      then ok profile
      else err unknown_profile

  -- The first loop: the sources seen, or the error.
  pub collect_sources : List String → List String → Checked (List String)
  collect_sources [] seen = ok seen
  collect_sources (source ∷ sources) seen =
      let name = texts.folded source in
      if not (dynamic_discovery_source_enabled all_dynamic_discovery_sources name)
      then err unsupported_source
      else if dynamic_discovery_source_enabled seen name
      then err repeated_source
      else collect_sources sources (name ∷ seen)

  -- A nil slice is `none`.
  pub normalize_dynamic_discovery_sources : Option (List String) → Checked (Option (List String))
  unfolding in_catalog_order
  normalize_dynamic_discovery_sources none = ok none
  normalize_dynamic_discovery_sources (some sources) = elim (collect_sources sources []) [
    | err e ↦ err e
    | ok seen ↦ ok (some (in_catalog_order seen all_dynamic_discovery_sources))
  ]
