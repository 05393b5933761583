-- ===== src/Runtime/Capability/Calls.antt =====
-- The calls on the capability cache: reuseCapability, registerCapability, settleCapabilities,
-- hasCapability, useCapability and removeCapability of dynamic_runtime_state.go.
pub mod Books
pub mod History
use emby_panel.Prelude.{
  ℕ, ◌+◌, ◌-◌, ◌==◌, Bool, true, false, not, ◌&&◌, ◌||◌, Option, none, some, List, [], ◌∷◌, String,
  leb, ltb, str_eq, if◌then◌else◌,
}
use emby_panel.Prelude.Maps.{Map, lookup, insert, delete, size}
use emby_panel.Runtime.{CapabilityEntry, Runtime, Site, World}
use emby_panel.Runtime.Authority.{finish}
use emby_panel.Runtime.Capability.{
  Process, dynamic_capability_entry_memory, dynamic_capability_entry_valid, idle_expiry, target_of,
  delete_capability, prune_runtime, put_entry, on_world, global_dynamic_max_active_capabilities,
  global_dynamic_max_site_capability_memory_bytes, global_dynamic_max_capability_memory_bytes,
}

pub one_more_use : CapabilityEntry → CapabilityEntry
one_more_use e = record e { pending_uses = e.pending_uses + 1 }

pub forget_key : String → World → World
forget_key cache_key w = record w {
  site = record w.site { capability_by_target = delete cache_key w.site.capability_by_target };
}

-- The branch of reuseCapability for a token that cannot be reused.
pub drop_reusable : String → String → String → Option CapabilityEntry → World → World
drop_reusable key cache_key token none w = forget_key cache_key w
drop_reusable key cache_key token (some e) w =
    let w' = forget_key cache_key w in
    if str_eq e.token token && e.pending_uses == 0 then delete_capability key e w' else w'

pub is_reusable : String → String → ℕ → ℕ → Option CapabilityEntry → Bool
is_reusable token cache_key now idle none = false
is_reusable token cache_key now idle (some e) =
    str_eq e.token token
    && str_eq e.cache_key cache_key
    && dynamic_capability_entry_valid e now idle

pub reuse_entry : String → Option CapabilityEntry → World → World
reuse_entry key none w = w
reuse_entry key (some e) w = put_entry key (one_more_use e) w

-- A registration that the cache has no room for.
pub has_no_room : ℕ → World → Bool
has_no_room memory w =
    leb w.site.limits.max_active_capabilities (size w.site.capabilities)
    || leb global_dynamic_max_active_capabilities w.runtime.active_capabilities
    || ltb global_dynamic_max_site_capability_memory_bytes (w.site.capability_memory + memory)
    || ltb global_dynamic_max_capability_memory_bytes (w.runtime.capability_memory + memory)

pub add_entry : String → CapabilityEntry → ℕ → World → World
add_entry key e memory w = record {
  runtime = record w.runtime {
    active_capabilities = w.runtime.active_capabilities + 1;
    capability_memory = w.runtime.capability_memory + memory;
  };
  site = record w.site {
    capabilities = insert key e w.site.capabilities;
    capability_by_target = insert e.cache_key e.token w.site.capability_by_target;
    capability_memory = w.site.capability_memory + memory;
  };
}

-- The condition of useCapability and hasCapability.
unfoldable pub is_usable : String → ℕ → ℕ → Option CapabilityEntry → Bool
is_usable token now idle none = false
is_usable token now idle (some e) =
    str_eq e.token token && e.published && dynamic_capability_entry_valid e now idle

pub drop_unusable : String → Option CapabilityEntry → World → World
drop_unusable key none w = w
drop_unusable key (some e) w = if e.pending_uses == 0 then delete_capability key e w else w

pub touch : String → ℕ → Option CapabilityEntry → World → World
touch key now none w = w
touch key now (some e) w = put_entry key (record e { last_used = now }) w

pub remove_entry : String → Option CapabilityEntry → World → World
remove_entry key none w = w
remove_entry key (some e) w = delete_capability key e w

-- settleCapabilities: how often each digest occurs in the list so far.
pub use_count : Option ℕ → ℕ
use_count none = 0
use_count (some n) = n

pub is_settleable : String → Bool → ℕ → ℕ → ℕ → Option CapabilityEntry → Bool
is_settleable token publish now idle count none = false
is_settleable token publish now idle count (some e) =
    str_eq e.token token
    && leb count e.pending_uses
    && (not publish || dynamic_capability_entry_valid e now idle)

-- The reservation of a published entry is committed.
pub commit_reservation : Option ℕ → World → World
commit_reservation none w = w
commit_reservation (some h) w = finish true h w

settle_entry : String → CapabilityEntry → ℕ → Bool → World → World
settle_entry key e count published w =
    let left = record e { pending_uses = e.pending_uses - count } in
    if published
    then put_entry key (record left { published = true; reservation = none })
        (commit_reservation e.reservation w)
    else if left.pending_uses == 0 && not left.published
    then delete_capability key left w
    else put_entry key left w

settle_found : String → Option CapabilityEntry → ℕ → Bool → World → World
unfolding settle_entry
settle_found key none count published w = w
settle_found key (some e) count published w =
    if ltb e.pending_uses count then w else settle_entry key e count published w

-- The second loop, over the counts.
pub settle_counts : Map ℕ → Bool → World → World
unfolding settle_found
settle_counts [] published w = w
settle_counts ((key, count) ∷ counts) published w =
    settle_counts counts published
      (settle_found key (lookup key w.site.capabilities) count published w)

module _ (digest : String → String) where
  pub reuse_at : String → ℕ → World → World × Option String
  reuse_at cache_key now w =
      let token = target_of (lookup cache_key w.site.capability_by_target) in
      let key = digest token in
      let entry = lookup key w.site.capabilities in
      if is_reusable token cache_key now (idle_expiry w.site) entry
      then (reuse_entry key entry w, some token)
      else (drop_reusable key cache_key token entry w, none)

  unfoldable pub reuse_capability : String → ℕ → Process → Process × Option String
  unfolding reuse_at
  reuse_capability cache_key now p =
      if str_eq cache_key ""
      then (p, none)
      else (let p' = prune_runtime now p in
          let (w, token) = reuse_at cache_key now p'.world in (record p' { world = w }, token))

  -- The part of registerCapability that adds an entry.
  pub register_new : String → String → ℕ → ℕ → Option ℕ → World → World × Option String
  register_new token cache_key expires_at now reservation w =
      let memory = dynamic_capability_entry_memory token cache_key in
      let key = digest token in
      if has_no_room memory w then (w, none) else elim (lookup key w.site.capabilities) [
        | some _ ↦ (w, none)
        | none ↦ (
          add_entry key
              (record {
                expires_at = expires_at;
                last_used = now;
                token = token;
                cache_key = cache_key;
                pending_uses = 1;
                published = false;
                reservation = reservation;
              })
              memory w,
          some token,
        )
      ]

  -- The entry of a token that the cache key already leads to.
  pub known_entry : String → String → World → Option CapabilityEntry
  known_entry existing cache_key w = elim (lookup (digest existing) w.site.capabilities) [
    | none ↦ none
    | some e ↦ if str_eq e.token existing && str_eq e.cache_key cache_key then some e else none
  ]

  register_known :
      String
      → String
      → String
      → ℕ
      → ℕ
      → Option ℕ
      → Option CapabilityEntry
      → World
      → World × Option String
  register_known existing token cache_key expires_at now reservation (some e) w =
      (put_entry (digest existing) (one_more_use e) w, some existing)
  register_known existing token cache_key expires_at now reservation none w =
      register_new token cache_key expires_at now reservation (forget_key cache_key w)

  pub register_at : String → String → ℕ → ℕ → Option ℕ → World → World × Option String
  unfolding register_known
  register_at token cache_key expires_at now reservation w =
      let existing = target_of (lookup cache_key w.site.capability_by_target) in
      if not (str_eq existing "")
      then register_known existing token cache_key expires_at now reservation
          (known_entry existing cache_key w) w
      else register_new token cache_key expires_at now reservation w

  unfoldable pub register_capability :
      String → String → ℕ → ℕ → Option ℕ → Process → Process × Option String
  unfolding register_at
  register_capability token cache_key expires_at now reservation p =
      if str_eq token "" || str_eq cache_key "" || not (ltb now expires_at)
      then (p, none)
      else (let p' = prune_runtime now p in
          let (w, issued) = register_at token cache_key expires_at now reservation p'.world in
          (record p' { world = w }, issued))

  unfoldable pub has_capability : String → ℕ → Process → Process × Bool
  unfolding is_usable drop_unusable
  has_capability token now p =
      if str_eq token ""
      then (p, false)
      else (let p' = prune_runtime now p in
          let key = digest token in
          let entry = lookup key p'.site.capabilities in
          if is_usable token now (idle_expiry p'.site) entry
          then (p', true)
          else (on_world (drop_unusable key entry) p', false))

  unfoldable pub use_capability : String → ℕ → Process → Process × Bool
  unfolding is_usable drop_unusable touch
  use_capability token now p =
      if str_eq token ""
      then (p, false)
      else (let p' = prune_runtime now p in
          let key = digest token in
          let entry = lookup key p'.site.capabilities in
          if is_usable token now (idle_expiry p'.site) entry
          then (on_world (touch key now entry) p', true)
          else (on_world (drop_unusable key entry) p', false))

  unfoldable pub remove_capability : String → Process → Process
  unfolding remove_entry
  remove_capability token p =
      let key = digest token in
      if str_eq token "" then p else on_world (remove_entry key (lookup key p.site.capabilities)) p

  -- The first loop: the counts, and whether every token can be settled.
  pub count_uses : Bool → ℕ → World → List String → Map ℕ → Bool → Map ℕ × Bool
  unfolding use_count is_settleable
  count_uses publish now w [] counts valid = (counts, valid)
  count_uses publish now w (token ∷ tokens) counts valid =
      let key = digest token in
      let n = use_count (lookup key counts) + 1 in
      count_uses publish now w tokens (insert key n counts) (
        valid
        && is_settleable token publish now (idle_expiry w.site) n (lookup key w.site.capabilities))

  unfoldable pub settle_capabilities : List String → Bool → ℕ → Process → Process × Bool
  settle_capabilities [] publish now p = (p, true)
  settle_capabilities (token ∷ tokens) publish now p =
      let (counts, valid) = count_uses publish now p.world (token ∷ tokens) [] true in
      (on_world (settle_counts counts (publish && valid)) p, valid)
