-- ===== src/Runtime.antt =====
-- dynamic_runtime_state.go and dynamic_authority.go: the state that the discovery of media
-- back ends keeps, one dynamicRuntime for the process and one dynamicSiteState for each site.
-- A world is the runtime and the site that a call is made on; both are locked for the call, so a
-- call is one step. An instant is a number of nanoseconds, 0 the zero Time.
mod Examples
pub mod Authority
pub mod Capability
pub mod Slots
use emby_panel.Prelude.{ℕ, Bool, Option, List, String}
use emby_panel.Prelude.Maps.{Map}

-- The limits of DynamicProfileLimits that the state is held to.
pub record Limits : Type 0 where
  pub max_authorities : ℕ
  pub max_active_capabilities : ℕ
  pub max_new_authorities_per_minute : ℕ
  pub max_streams : ℕ
  pub idle_expiry_seconds : ℕ

-- `id` is the entry's address, and `resolving` says that it has a resolution.
pub record AuthorityEntry : Type 0 where
  pub id : ℕ
  pub in_flight : ℕ
  pub committed : Bool
  pub resolving : Bool

-- A reservation whose once.Do has not run; `handle` is its address and `entry` that of its entry.
pub record Reservation : Type 0 where
  pub handle : ℕ
  pub authority : String
  pub entry : ℕ

pub record CapabilityEntry : Type 0 where
  pub expires_at : ℕ
  pub last_used : ℕ
  pub token : String
  pub cache_key : String
  pub pending_uses : ℕ
  pub published : Bool
  pub reservation : Option ℕ  -- the handle

pub record Runtime : Type 0 where
  pub authorities : Map ℕ
  pub new_authorities : List ℕ
  pub active_capabilities : ℕ
  pub capability_memory : ℕ
  pub last_capability_prune : ℕ
  pub streams : ℕ  -- permits taken from the channel
  pub parses : ℕ
  pub parse_memory : ℕ

-- `open_reservations` and `next_id` stand for the heap: the reservations that are not finished,
-- and the next address.
pub record Site : Type 0 where
  pub limits : Limits
  pub authorities : Map AuthorityEntry
  pub new_authorities : List ℕ
  pub capabilities : Map CapabilityEntry
  pub capability_by_target : Map String
  pub capability_memory : ℕ
  pub streams : ℕ
  pub parses : ℕ
  pub parse_memory : ℕ
  pub open_reservations : List Reservation
  pub next_id : ℕ

pub record World : Type 0 where
  pub runtime : Runtime
  pub site : Site

-- The reason codes of dynamic observations that the state gives.
pub data Reason : Type 0 where
  runtime_unavailable capacity_limit rate_limit : Reason
