-- ===== src/Runtime/Capability.antt =====
-- dynamic_runtime_state.go: the cache of capabilities, the encrypted tokens that stand for
-- discovered URLs. An entry stands under the digest of its token; a second map finds the token of
-- a cache key. The digest (sha256.Sum256) is a parameter. `-` on numbers stops at 0, as the
-- code's counters do by their tests for a negative result.
pub mod Memory
pub mod Calls
use Prim.Native.String.{len}
use emby_panel.Prelude.{
  ℕ, ◌+◌, ◌-◌, ◌*◌, ◌==◌, Bool, true, false, not, ◌&&◌, ◌||◌, Option, none, some, List, [], ◌∷◌,
  String, leb, ltb, str_eq, if◌then◌else◌,
}
use emby_panel.Prelude.Maps.{Map, lookup, insert, delete, size}
use emby_panel.Runtime.{CapabilityEntry, Runtime, Site, World}
use emby_panel.Runtime.Authority.{finish}

abbrev pub global_dynamic_max_active_capabilities : ℕ
global_dynamic_max_active_capabilities = 131072

-- 64 << 20 and 256 << 20.
abbrev pub global_dynamic_max_site_capability_memory_bytes : ℕ
global_dynamic_max_site_capability_memory_bytes = 67108864

abbrev pub global_dynamic_max_capability_memory_bytes : ℕ
global_dynamic_max_capability_memory_bytes = 268435456

abbrev pub dynamic_capability_prune_interval : ℕ
dynamic_capability_prune_interval = 30000000000

-- sha256.Size is 32.
pub dynamic_capability_entry_memory : String → String → ℕ
dynamic_capability_entry_memory token cache_key = 32 + len token + len cache_key + 128

pub entry_memory : CapabilityEntry → ℕ
entry_memory e = dynamic_capability_entry_memory e.token e.cache_key

abbrev pub idle_expiry : Site → ℕ
idle_expiry s = s.limits.idle_expiry_seconds * 1000000000

unfoldable pub dynamic_capability_entry_valid : CapabilityEntry → ℕ → ℕ → Bool
dynamic_capability_entry_valid e now idle =
    not (str_eq e.token "") && ltb now e.expires_at && ltb 0 idle && ltb now (e.last_used + idle)

-- The reservation that an entry still holds is rolled back.
pub roll_back : Option ℕ → World → World
roll_back none w = w
roll_back (some h) w = finish false h w

-- capabilityByTarget[k], "" where it is missing.
pub target_of : Option String → String
target_of none = ""
target_of (some t) = t

-- The cache key is forgotten if it still leads to this token.
pub forget_target : CapabilityEntry → Map String → Map String
forget_target e m =
    if not (str_eq e.cache_key "") && str_eq (target_of (lookup e.cache_key m)) e.token
    then delete e.cache_key m
    else m

-- The part of deleteCapabilityLocked behind the reservation.
pub drop_entry : String → CapabilityEntry → World → World
drop_entry key e w =
    let memory = entry_memory e in
    record {
      runtime = record w.runtime {
        capability_memory = w.runtime.capability_memory - memory;
        active_capabilities = w.runtime.active_capabilities - 1;
      };
      site = record w.site {
        capabilities = delete key w.site.capabilities;
        capability_by_target = forget_target e w.site.capability_by_target;
        capability_memory = w.site.capability_memory - memory;
      };
    }

pub delete_capability : String → CapabilityEntry → World → World
delete_capability key e w = drop_entry key e (roll_back e.reservation w)

pub is_stale : ℕ → ℕ → CapabilityEntry → Bool
is_stale now idle e = e.pending_uses == 0 && not (dynamic_capability_entry_valid e now idle)

-- for key, entry := range s.capabilities
pub prune_entries : ℕ → ℕ → Map CapabilityEntry → World → World
prune_entries now idle [] w = w
prune_entries now idle ((key, e) ∷ m) w =
    prune_entries now idle m (if is_stale now idle e then delete_capability key e w else w)

-- pruneCapabilitiesLocked of a site.
pub prune_site : ℕ → World → World
prune_site now w = prune_entries now (idle_expiry w.site) w.site.capabilities w

-- The process: the site of the call and the other sites of the runtime.
pub record Process : Type 0 where
  pub world : World
  pub open world use *
  pub others : List Site

-- The loop over the states of the runtime that are not the site of the call.
pub prune_others : ℕ → Runtime → List Site → Runtime × List Site
prune_others now r [] = (r, [])
prune_others now r (s ∷ ss) =
    let w = prune_site now (record { runtime = r; site = s }) in
    let (r', ss') = prune_others now w.runtime ss in (r', w.site ∷ ss')

-- The states in turn, that of the call first.
pub prune_states : ℕ → Process → Process
prune_states now p =
    let w = prune_site now p.world in
    let (r, ss) = prune_others now w.runtime p.others in
    record { world = record w { runtime = r }; others = ss }

-- pruneCapabilitiesLocked of the runtime.
unfoldable pub prune_runtime : ℕ → Process → Process
prune_runtime now p =
    if not (p.runtime.last_capability_prune == 0)
      && ltb now (p.runtime.last_capability_prune + dynamic_capability_prune_interval)
    then p
    else prune_states now (record p {
      world = record p.world { runtime = record p.runtime { last_capability_prune = now } };
    })

-- s.capabilities[key] = entry, for an entry that is there.
pub put_entry : String → CapabilityEntry → World → World
put_entry key e w = record w {
  site = record w.site { capabilities = insert key e w.site.capabilities };
}

pub on_world : (World → World) → Process → Process
on_world f p = record p { world = f p.world }
