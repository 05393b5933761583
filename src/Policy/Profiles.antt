-- ===== src/Policy/Profiles.antt =====
-- dynamic_policy.go: the catalog of profiles and the limits of each.
pub mod Within
use emby_panel.Prelude.{
  ℕ, Bool, true, false, Option, none, some, List, [], ◌∷◌, String, str_eq, if◌then◌else◌,
}

abbrev pub dynamic_profile_safe : String
dynamic_profile_safe = "safe"

abbrev pub dynamic_profile_compatible : String
dynamic_profile_compatible = "compatible"

abbrev pub dynamic_profile_extreme : String
dynamic_profile_extreme = "extreme"

abbrev pub source_redirect : String
source_redirect = "redirect"

abbrev pub source_playback_info : String
source_playback_info = "playback_info"

abbrev pub source_hls : String
source_hls = "hls"

abbrev pub source_dash : String
source_dash = "dash"

abbrev pub all_dynamic_discovery_sources : List String
all_dynamic_discovery_sources =
    source_redirect ∷ source_playback_info ∷ source_hls ∷ source_dash ∷ []

abbrev pub default_dynamic_discovery_sources : List String
default_dynamic_discovery_sources = source_redirect ∷ source_playback_info ∷ []

pub record DynamicFeatureFlags : Type 0 where
  pub redirect_discovery : Bool
  pub playback_info : Bool
  pub hls : Bool
  pub dash : Bool
  pub private_targets : Bool
  pub custom_ca : Bool
  pub raw_fallback : Bool

pub record DynamicProfileLimits : Type 0 where
  pub allowed_schemes : List String
  pub allowed_ports : List ℕ
  pub allow_any_port : Bool
  pub max_redirects : ℕ
  pub max_authorities : ℕ
  pub max_active_capabilities : ℕ
  pub max_urls_per_response : ℕ
  pub max_body_bytes : ℕ
  pub max_dns_ips : ℕ
  pub max_new_authorities_per_minute : ℕ
  pub max_streams : ℕ
  pub idle_expiry_seconds : ℕ
  pub absolute_lifetime_seconds : ℕ

pub record DynamicProfile : Type 0 where
  pub id : String
  pub label : String
  pub recommended : Bool
  pub discovery_sources : List String
  pub limits : DynamicProfileLimits
  pub features : DynamicFeatureFlags

pub record DynamicGlobalLimits : Type 0 where
  pub max_authorities : ℕ
  pub max_active_capabilities : ℕ
  pub max_streams : ℕ
  pub max_new_authorities_per_minute : ℕ
  pub max_dns_workers : ℕ
  pub max_concurrent_parses : ℕ
  pub max_site_concurrent_parses : ℕ
  pub max_parse_memory_bytes : ℕ
  pub max_site_parse_memory_bytes : ℕ
  pub max_capability_memory_bytes : ℕ
  pub max_site_capability_memory_bytes : ℕ
  pub max_parse_depth : ℕ
  pub max_string_bytes : ℕ
  pub max_target_url_bytes : ℕ

pub discovers : Bool → DynamicFeatureFlags
discovers manifests = record {
  redirect_discovery = true;
  playback_info = true;
  hls = manifests;
  dash = manifests;
  private_targets = false;
  custom_ca = false;
  raw_fallback = false;
}

pub safe_profile : DynamicProfile
unfolding discovers
safe_profile = record {
  id = dynamic_profile_safe;
  label = "Safe";
  recommended = false;
  discovery_sources = source_redirect ∷ source_playback_info ∷ [];
  limits = record {
    allowed_schemes = "https" ∷ [];
    allowed_ports = 443 ∷ [];
    allow_any_port = false;
    max_redirects = 3;
    max_authorities = 256;
    max_active_capabilities = 4096;
    max_urls_per_response = 256;
    max_body_bytes = 4194304;
    max_dns_ips = 16;
    max_new_authorities_per_minute = 60;
    max_streams = 32;
    idle_expiry_seconds = 1800;
    absolute_lifetime_seconds = 28800;
  };
  features = discovers false;
}

pub compatible_profile : DynamicProfile
unfolding discovers
compatible_profile = record {
  id = dynamic_profile_compatible;
  label = "Compatible";
  recommended = true;
  discovery_sources = all_dynamic_discovery_sources;
  limits = record {
    allowed_schemes = "http" ∷ "https" ∷ [];
    allowed_ports = [];
    allow_any_port = true;
    max_redirects = 5;
    max_authorities = 1024;
    max_active_capabilities = 16384;
    max_urls_per_response = 1024;
    max_body_bytes = 16777216;
    max_dns_ips = 32;
    max_new_authorities_per_minute = 300;
    max_streams = 128;
    idle_expiry_seconds = 7200;
    absolute_lifetime_seconds = 86400;
  };
  features = discovers true;
}

pub extreme_profile : DynamicProfile
unfolding discovers
extreme_profile = record {
  id = dynamic_profile_extreme;
  label = "Extreme";
  recommended = false;
  discovery_sources = all_dynamic_discovery_sources;
  limits = record {
    allowed_schemes = "http" ∷ "https" ∷ [];
    allowed_ports = [];
    allow_any_port = true;
    max_redirects = 10;
    max_authorities = 4096;
    max_active_capabilities = 65536;
    max_urls_per_response = 4096;
    max_body_bytes = 67108864;
    max_dns_ips = 64;
    max_new_authorities_per_minute = 1200;
    max_streams = 512;
    idle_expiry_seconds = 86400;
    absolute_lifetime_seconds = 604800;
  };
  features = discovers true;
}

pub dynamic_profiles_catalog : List DynamicProfile
unfolding safe_profile compatible_profile extreme_profile
dynamic_profiles_catalog = safe_profile ∷ compatible_profile ∷ extreme_profile ∷ []

-- for _, candidate := range dynamicProfilesCatalog()
pub find_limits : String → List DynamicProfile → Option DynamicProfileLimits
find_limits profile [] = none
find_limits profile (candidate ∷ candidates) =
    if str_eq candidate.id profile then some candidate.limits else find_limits profile candidates

unfoldable pub dynamic_limits_for_profile : String → Option DynamicProfileLimits
unfolding find_limits dynamic_profiles_catalog
dynamic_limits_for_profile profile = find_limits profile dynamic_profiles_catalog

pub dynamic_global_limits : DynamicGlobalLimits
dynamic_global_limits = record {
  max_authorities = 16384;
  max_active_capabilities = 131072;
  max_streams = 1024;
  max_new_authorities_per_minute = 2400;
  max_dns_workers = 32;
  max_concurrent_parses = 8;
  max_site_concurrent_parses = 2;
  max_parse_memory_bytes = 268435456;
  max_site_parse_memory_bytes = 67108864;
  max_capability_memory_bytes = 268435456;
  max_site_capability_memory_bytes = 67108864;
  max_parse_depth = 64;
  max_string_bytes = 1048576;
  max_target_url_bytes = 4096;
}
