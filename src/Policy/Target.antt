-- ===== src/Policy/Target.antt =====
-- dynamic_runtime_state.go: dynamicRedirectPolicy, which says why a target may not be proxied. The
-- effective port (dynamicEffectivePort), the rule for safe domains (dynamicSafeDomainAllowed), the
-- test for the panel's own addresses and strings.EqualFold are parameters.
mod Examples
pub mod Denials
use emby_panel.Prelude.{
  ℕ, ◌==◌, Bool, true, false, not, ◌&&◌, ◌||◌, Option, none, some, List, [], ◌∷◌, String, str_eq,
  if◌then◌else◌,
}
use emby_panel.Policy.Profiles.{
  DynamicProfileLimits, dynamic_profile_safe, dynamic_profile_compatible,
  all_dynamic_discovery_sources, dynamic_limits_for_profile,
}
use emby_panel.Policy.Sources.{dynamic_discovery_source_enabled}

pub data Reason : Type 0 where
  capacity_limit rate_limit other_reason : Reason
  scheme_denied port_denied domain_denied https_downgrade_denied runtime_unavailable self_target :
      Reason

-- What a response of newDynamicProxyError has: its status and Retry-After.
pub record DynamicProxyError : Type 0 where
  pub status_code : ℕ
  pub retry_after : String
  pub reason_code : Reason

pub new_dynamic_proxy_error : Reason → DynamicProxyError
new_dynamic_proxy_error capacity_limit = record {
  status_code = 503;
  retry_after = "1";
  reason_code = capacity_limit;
}
new_dynamic_proxy_error rate_limit = record {
  status_code = 503;
  retry_after = "60";
  reason_code = rate_limit;
}
new_dynamic_proxy_error reason = record {
  status_code = 502;
  retry_after = "";
  reason_code = reason;
}

pub record DynamicRedirectPolicy (Rule : Type 0) : Type 0 where
  pub configured : Bool
  pub available : Bool
  pub profile : String
  pub limits : DynamicProfileLimits
  pub sources : List String
  pub domain_rules : List Rule
  pub allow_https_downgrade : Bool

-- The site is not looked at.
pub new_dynamic_redirect_policy : {Rule : Type 0} → Bool → Option (DynamicRedirectPolicy Rule)
unfolding dynamic_limits_for_profile
new_dynamic_redirect_policy available =
    elim (dynamic_limits_for_profile dynamic_profile_compatible) [
      | none ↦ none
      | some limits ↦ some (record {
        configured = true;
        available = available;
        profile = dynamic_profile_compatible;
        limits = limits;
        sources = all_dynamic_discovery_sources;
        domain_rules = [];
        allow_https_downgrade = true;
      })
    ]

pub source_enabled : {Rule : Type 0} → DynamicRedirectPolicy Rule → String → Bool
source_enabled p source = p.configured && dynamic_discovery_source_enabled p.sources source

pub allows_port : List ℕ → ℕ → Bool
allows_port [] port = false
allows_port (candidate ∷ ports) port = if port == candidate then true else allows_port ports port

pub record Url : Type 0 where
  pub scheme : String
  pub hostname : String

-- Whether a redirect leaves https; the comparison that ignores case is a parameter.
pub is_downgrade : (String → String → Bool) → Option Url → Url → Bool
is_downgrade equal_fold none target = false
is_downgrade equal_fold (some previous) target =
    equal_fold previous.scheme "https" && str_eq target.scheme "http"

module _ {Rule : Type 0} (effective_port : Url → Option ℕ)
    (safe_domain_allowed : String → List Rule → Bool) (equal_fold : String → String → Bool) where
  -- The checks after that of the port. `self_targets` is the policy of the panel's own addresses
  -- (`none` is nil): whether it refuses the target.
  after_port : DynamicRedirectPolicy Rule → Option Url → Url → Option (Url → Bool) → Option Reason
  after_port p previous target self_targets =
      if str_eq p.profile dynamic_profile_safe
        && not (safe_domain_allowed target.hostname p.domain_rules)
      then some domain_denied
      else if is_downgrade equal_fold previous target && not p.allow_https_downgrade
      then some https_downgrade_denied
      else elim self_targets [
        | none ↦ some runtime_unavailable
        | some refuses ↦ if refuses target then some self_target else none
      ]

  -- `none` for a target that is allowed.
  pub validate_target :
      DynamicRedirectPolicy Rule → Option Url → Url → Option (Url → Bool) → Option Reason
  unfolding after_port allows_port
  validate_target p previous target self_targets =
      if not (dynamic_discovery_source_enabled p.limits.allowed_schemes target.scheme)
      then some scheme_denied
      else elim (effective_port target) [
        | none ↦ some port_denied
        | some port ↦
            if not p.limits.allow_any_port && not (allows_port p.limits.allowed_ports port)
            then some port_denied
            else after_port p previous target self_targets
      ]
