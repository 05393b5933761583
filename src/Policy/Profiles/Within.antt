-- ===== src/Policy/Profiles/Within.antt =====
-- The profiles against the limits of the process.
use mathlib.Core.Path.{subst}
use emby_panel.Prelude.{
  ◌≤◌, ◌≡◌, some, List, [], ◌∷◌, String, arith, str_eq, All, Bool-cases, inl, inr,
}
use emby_panel.Policy.Profiles.{
  DynamicProfileLimits, DynamicProfile, dynamic_profiles_catalog, find_limits,
  dynamic_limits_for_profile, dynamic_global_limits,
}

-- A site's limits fit in those of the process, and its lifetimes are ordered.
pub record Fits (l : DynamicProfileLimits) : Type 0 where
  pub authorities : l.max_authorities ≤ dynamic_global_limits.max_authorities
  pub capabilities : l.max_active_capabilities ≤ dynamic_global_limits.max_active_capabilities
  pub streams : l.max_streams ≤ dynamic_global_limits.max_streams
  pub rate : l.max_new_authorities_per_minute ≤ dynamic_global_limits.max_new_authorities_per_minute
  pub rate_in_limit : l.max_new_authorities_per_minute ≤ l.max_authorities
  pub lifetime : l.idle_expiry_seconds ≤ l.absolute_lifetime_seconds

found_in :
    (P : DynamicProfileLimits → Type 0) (profile : String) (candidates : List DynamicProfile)
    (l : DynamicProfileLimits)
    → All (λ c. P c.limits) candidates
    → find_limits profile candidates ≡ some l
    → P l
unfolding find_limits
found_in P profile [] l h e = absurd (ground arith)
found_in P profile (c ∷ candidates) l h e = elim (Bool-cases (str_eq c.id profile)) [
  | inl here ↦ subst P (ground arith) h.0
  | inr there ↦ found_in P profile candidates l h.1 (ground arith)
]

catalog-Fits : All (λ c. Fits c.limits) dynamic_profiles_catalog
unfolding dynamic_profiles_catalog dynamic_global_limits
catalog-Fits = (
  record {
    authorities = omega arith;
    capabilities = omega arith;
    streams = omega arith;
    rate = omega arith;
    rate_in_limit = omega arith;
    lifetime = omega arith;
  },
  (
    record {
      authorities = omega arith;
      capabilities = omega arith;
      streams = omega arith;
      rate = omega arith;
      rate_in_limit = omega arith;
      lifetime = omega arith;
    },
    (
      record {
        authorities = omega arith;
        capabilities = omega arith;
        streams = omega arith;
        rate = omega arith;
        rate_in_limit = omega arith;
        lifetime = omega arith;
      },
      tt,
    ),
  ),
)

-- The limits of any profile that the catalog knows fit within the limits of the process, its rate
-- of new authorities within their number, and its idle time within its lifetime.
pub profile_limits_fit :
    (profile : String) (l : DynamicProfileLimits)
    → dynamic_limits_for_profile profile ≡ some l
    → Fits l
unfolding dynamic_limits_for_profile
profile_limits_fit profile l e = found_in Fits profile dynamic_profiles_catalog l catalog-Fits e
