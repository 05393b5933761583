-- ===== src/Policy/Target/Examples.antt =====
-- An https target under a policy that allows one port.
use mathlib.Core.List.{Memᴰ}
use emby_panel.Prelude.{
  ℕ, ◌≡◌, ◌≢◌, ◌⊎◌, ◌&&◌, ◌↔◌, Bool, true, false, ◌||◌, Option, none, some, List, [], String,
  str_eq,
}
use emby_panel.Policy.Profiles.{safe_profile}
use emby_panel.Policy.Target.{DynamicRedirectPolicy, Url, validate_target}
use emby_panel.Policy.Target.Denials.{IsNoDowngrade, allowed_target}

abbrev port_of : Url → Option ℕ
port_of u = some 443

abbrev in_domain : String → List String → Bool
in_domain host rules = true

abbrev same_folded : String → String → Bool
same_folded s t = str_eq s t || (str_eq s "HTTPS" && str_eq t "https")

abbrev policy : DynamicRedirectPolicy String
policy = record {
  configured = true;
  available = true;
  profile = "safe";
  limits = safe_profile.limits;
  sources = [];
  domain_rules = [];
  allow_https_downgrade = false;
}

abbrev target : Url
target = record { scheme = "https"; hostname = "media.example" }

abbrev own_addresses : Option (Url → Bool)
own_addresses = some (λ u. false)

-- A redirect from https stays there.
abbrev came_from : Option Url
came_from = some (record { scheme = "HTTPS"; hostname = "front.example" })

allowed_target_example :
    (validate_target port_of in_domain same_folded policy came_from target own_addresses ≡ none) ↔ (
      (port : ℕ) × (refuses : Url → Bool) × (port_of target ≡ some port)
      × (own_addresses ≡ some refuses)
      × Memᴰ target.scheme policy.limits.allowed_schemes
      × ((policy.limits.allow_any_port ≡ true) ⊎ Memᴰ port policy.limits.allowed_ports)
      × ((policy.profile ≢ "safe") ⊎ (in_domain target.hostname policy.domain_rules ≡ true))
      × (IsNoDowngrade same_folded came_from target ⊎ (policy.allow_https_downgrade ≡ true))
      × (refuses target ≡ false))
allowed_target_example =
    allowed_target port_of in_domain same_folded policy came_from target own_addresses
