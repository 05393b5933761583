-- ===== src/Policy.antt =====
-- dynamic_policy.go and the redirect policy of dynamic_runtime_state.go: the profiles that a site
-- may choose for the discovery of media back ends, their limits, and which targets they allow.
pub mod Profiles
pub mod Sources
pub mod Target
