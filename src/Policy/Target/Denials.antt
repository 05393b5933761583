-- ===== src/Policy/Target/Denials.antt =====
-- When a target is allowed.
use mathlib.Core.List.{Memᴰ}
use emby_panel.Prelude.{
  ℕ, ◌≡◌, ◌≢◌, ◌↔◌, ◌⊎◌, refl, Bool, true, false, not, ◌||◌, ◌==◌, Option, none, some, List, [],
  ◌∷◌, String, arith, str_eq, eq_iff, Bool-cases, Option-cases, inl, inr,
}
use emby_panel.Policy.Profiles.{dynamic_profile_safe}
use emby_panel.Policy.Sources.{dynamic_discovery_source_enabled}
use emby_panel.Policy.Target.{
  DynamicRedirectPolicy, Url, allows_port, is_downgrade, after_port, validate_target,
}

-- The target is no http target of a redirect from https.
abbrev pub IsNoDowngrade : (String → String → Bool) → Option Url → Url → Type 0
IsNoDowngrade equal_fold none target = Unit
IsNoDowngrade equal_fold (some previous) target =
    (equal_fold previous.scheme "https" ≡ false) ⊎ (target.scheme ≢ "http")

enabled-Memᴰ :
    (sources : List String) (source : String)
    → dynamic_discovery_source_enabled sources source ≡ true
    → Memᴰ source sources
unfolding dynamic_discovery_source_enabled
enabled-Memᴰ [] source h = ground arith
enabled-Memᴰ (s ∷ sources) source h = elim (Bool-cases (str_eq s source)) [
  | inl own ↦ Memᴰ.head (ground (arith, eq_iff s source))
  | inr other ↦ Memᴰ.tail (enabled-Memᴰ sources source (rw other at h))
]

Memᴰ-enabled :
    (sources : List String) (source : String)
    → Memᴰ source sources
    → dynamic_discovery_source_enabled sources source ≡ true
unfolding dynamic_discovery_source_enabled
Memᴰ-enabled [] source m = elim m [ ]
Memᴰ-enabled (s ∷ sources) source (Memᴰ.head e) =
    let own : str_eq s source ≡ true = ground (arith, e, eq_iff s source) in rw own refl
Memᴰ-enabled (s ∷ sources) source (Memᴰ.tail m) = ground (arith, Memᴰ-enabled sources source m)

allows_port-Memᴰ : (ports : List ℕ) (port : ℕ) → allows_port ports port ≡ true → Memᴰ port ports
unfolding allows_port
allows_port-Memᴰ [] port h = ground arith
allows_port-Memᴰ (p ∷ ports) port h = elim (Bool-cases (port == p)) [
  | inl own ↦ Memᴰ.head (ground arith)
  | inr other ↦ Memᴰ.tail (allows_port-Memᴰ ports port (rw other at h))
]

Memᴰ-allows_port : (ports : List ℕ) (port : ℕ) → Memᴰ port ports → allows_port ports port ≡ true
unfolding allows_port
Memᴰ-allows_port [] port m = elim m [ ]
Memᴰ-allows_port (p ∷ ports) port (Memᴰ.head e) = ground (arith, e)
Memᴰ-allows_port (p ∷ ports) port (Memᴰ.tail m) = ground (arith, Memᴰ-allows_port ports port m)

is_downgrade-IsNoDowngrade :
    (equal_fold : String → String → Bool) (previous : Option Url) (target : Url)
    → is_downgrade equal_fold previous target ≡ false
    → IsNoDowngrade equal_fold previous target
unfolding is_downgrade
is_downgrade-IsNoDowngrade equal_fold none target h = tt
is_downgrade-IsNoDowngrade equal_fold (some previous) target h =
    elim (Bool-cases (equal_fold previous.scheme "https")) [
      | inl secure ↦ inr (λ plain. absurd (ground (arith, eq_iff target.scheme "http")))
      | inr other ↦ inl other
    ]

IsNoDowngrade-is_downgrade :
    (equal_fold : String → String → Bool) (previous : Option Url) (target : Url)
    → IsNoDowngrade equal_fold previous target
    → is_downgrade equal_fold previous target ≡ false
unfolding is_downgrade
IsNoDowngrade-is_downgrade equal_fold none target h = refl
IsNoDowngrade-is_downgrade equal_fold (some previous) target (inl other) = rw other refl
IsNoDowngrade-is_downgrade equal_fold (some previous) target (inr not_plain) =
    ground (arith, eq_iff target.scheme "http", not_plain)

or_cases : (a b : Bool) → (a || b) ≡ true → (a ≡ true) ⊎ (b ≡ true)
or_cases true b h = inl refl
or_cases false b h = inr h

module _ {Rule : Type 0} (effective_port : Url → Option ℕ)
    (safe_domain_allowed : String → List Rule → Bool) (equal_fold : String → String → Bool) where
  allowed_checks :
      (p : DynamicRedirectPolicy Rule) (previous : Option Url) (target : Url)
      (self_targets : Option (Url → Bool))
      → (validate_target effective_port safe_domain_allowed equal_fold p previous target
            self_targets
          ≡ none)
        ↔ ((port : ℕ) × (refuses : Url → Bool) × (effective_port target ≡ some port)
            × (self_targets ≡ some refuses)
            × (dynamic_discovery_source_enabled p.limits.allowed_schemes target.scheme ≡ true)
            × ((p.limits.allow_any_port || allows_port p.limits.allowed_ports port) ≡ true)
            × ((not (str_eq p.profile dynamic_profile_safe)
                  || safe_domain_allowed target.hostname p.domain_rules)
                ≡ true)
            × ((not (is_downgrade equal_fold previous target) || p.allow_https_downgrade) ≡ true)
            × (refuses target ≡ false))
  unfolding validate_target after_port
  allowed_checks p previous target self_targets = (
    (λ h. elim (Option-cases (effective_port target)) [
      | inl missing ↦ absurd (ground arith)
      | inr (port, found) ↦ elim (Option-cases self_targets) [
        | inl unknown ↦ absurd (ground arith)
        | inr (refuses, given) ↦ (
          port,
          refuses,
          found,
          given,
          ground arith,
          ground arith,
          ground arith,
          ground arith,
          ground arith,
        )
      ]
    ]),
    (λ h. ground arith),
  )

  -- A target is allowed exactly if its scheme is one of the profile's, it has a port, which is one
  -- of the profile's unless that takes any, the rules of a safe profile take its domain, it is no
  -- http target of a redirect from https unless that is allowed, and the panel's own addresses are
  -- known and do not have it.
  pub allowed_target :
      (p : DynamicRedirectPolicy Rule) (previous : Option Url) (target : Url)
      (self_targets : Option (Url → Bool))
      → (validate_target effective_port safe_domain_allowed equal_fold p previous target
            self_targets
          ≡ none)
        ↔ ((port : ℕ) × (refuses : Url → Bool) × (effective_port target ≡ some port)
            × (self_targets ≡ some refuses)
            × Memᴰ target.scheme p.limits.allowed_schemes
            × ((p.limits.allow_any_port ≡ true) ⊎ Memᴰ port p.limits.allowed_ports)
            × ((p.profile ≢ "safe") ⊎ (safe_domain_allowed target.hostname p.domain_rules ≡ true))
            × (IsNoDowngrade equal_fold previous target ⊎ (p.allow_https_downgrade ≡ true))
            × (refuses target ≡ false))
  allowed_target p previous target self_targets =
      let (to_checks, from_checks) = allowed_checks p previous target self_targets in
      let ports = p.limits.allowed_ports in
      (
        (λ h.
            let (port, refuses, found, given, scheme, port_fine, domain, secure, other) =
              to_checks h in
            (
              port,
              refuses,
              found,
              given,
              enabled-Memᴰ p.limits.allowed_schemes target.scheme scheme,
              elim (or_cases p.limits.allow_any_port (allows_port ports port) port_fine) [
                | inl any ↦ inl any
                | inr one ↦ inr (allows_port-Memᴰ ports port one)
              ],
              elim (or_cases (not (str_eq p.profile "safe"))
                  (safe_domain_allowed target.hostname p.domain_rules) domain) [
                    | inl unsafe ↦ inl (λ e. absurd (ground (arith, eq_iff p.profile "safe")))
                    | inr taken ↦ inr taken
                  ],
              elim (or_cases (not (is_downgrade equal_fold previous target)) p.allow_https_downgrade
                  secure) [
                    | inl stays ↦
                        inl (is_downgrade-IsNoDowngrade equal_fold previous target (ground arith))
                    | inr allowed ↦ inr allowed
                  ],
              other,
            )),
        (λ (port, refuses, found, given, scheme, port_fine, domain, secure, other). from_checks (
          port,
          refuses,
          found,
          given,
          Memᴰ-enabled p.limits.allowed_schemes target.scheme scheme,
          elim port_fine [
            | inl any ↦ ground arith
            | inr one ↦ ground (arith, Memᴰ-allows_port ports port one)
          ],
          elim domain [
            | inl unsafe ↦ ground (arith, eq_iff p.profile "safe", unsafe)
            | inr taken ↦ ground arith
          ],
          elim secure [
            | inl stays ↦
                ground (arith, IsNoDowngrade-is_downgrade equal_fold previous target stays)
            | inr allowed ↦ ground arith
          ],
          other,
        )),
      )
