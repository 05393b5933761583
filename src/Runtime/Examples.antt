-- ===== src/Runtime/Examples.antt =====
-- A process with one site that has one published capability.
use emby_panel.Prelude.{ℕ, ◌+◌, ◌<◌, ◌≡◌, refl, true, none, some, List, [], ◌∷◌, String, arith}
use emby_panel.Prelude.Maps.{Map, lookup}
use emby_panel.Runtime.{Limits, CapabilityEntry, Runtime, Site, World}
use emby_panel.Runtime.Authority.{reserve_authority}
use emby_panel.Runtime.Authority.Counting.{Inv, reserves, here, next, references_exact}
use emby_panel.Runtime.Capability.{
  Process, prune_runtime, idle_expiry, dynamic_capability_entry_valid,
}
use emby_panel.Runtime.Capability.Calls.{use_capability, is_usable}
use emby_panel.Runtime.Capability.Memory.Pruning.{ProcessBooks}
use emby_panel.Runtime.Capability.Calls.History.{
  Call, registers, settles, uses, removes, calls, capability_books_exact, use_capability_sound,
}

abbrev limits : Limits
limits = record {
  max_authorities = 256;
  max_active_capabilities = 4096;
  max_new_authorities_per_minute = 60;
  max_streams = 32;
  idle_expiry_seconds = 1800;
}

abbrev published : CapabilityEntry
published = record {
  expires_at = 90000000000;
  last_used = 5;
  token = "t";
  cache_key = "k";
  pending_uses = 0;
  published = true;
  reservation = none;
}

abbrev runtime : ℕ → ℕ → Runtime
runtime active memory = record {
  authorities = [];
  new_authorities = [];
  active_capabilities = active;
  capability_memory = memory;
  last_capability_prune = 10;
  streams = 0;
  parses = 0;
  parse_memory = 0;
}

abbrev site : Map CapabilityEntry → Map String → ℕ → Site
site capabilities targets memory = record {
  limits = limits;
  authorities = [];
  new_authorities = [];
  capabilities = capabilities;
  capability_by_target = targets;
  capability_memory = memory;
  streams = 0;
  parses = 0;
  parse_memory = 0;
  open_reservations = [];
  next_id = 0;
}

abbrev idle : World
idle = record { runtime = runtime 0 0; site = site [] [] 0 }

idle-Inv : Inv (λ a. 0) idle
unfolding lookup
idle-Inv = record {
  distinct = tt;
  distinct_global = tt;
  counted = λ a. refl;
  pointing = tt;
  kept = λ a. tt;
  global = λ a. refl;
}

abbrev reserved : World
reserved = (reserve_authority "https://a:443" 7 idle).0

references_exact_example : Inv (λ a. 0) reserved
references_exact_example =
    references_exact (λ a. 0) idle reserved idle-Inv (next here (reserves "https://a:443" 7 refl))

abbrev own_digest : String → String
own_digest s = s

abbrev empty_process : Process
empty_process = record { world = idle; others = [] }

empty_process-Books : ProcessBooks empty_process
empty_process-Books = record {
  books = record {
    distinct = tt;
    site_memory = refl;
    runtime_memory = refl;
    runtime_active = refl;
    site_bound = ground arith;
    site_memory_bound = ground arith;
    runtime_bound = ground arith;
    runtime_memory_bound = ground arith;
  };
  other_sites = tt;
}

abbrev some_calls : List Call
some_calls =
    registers "t" "k" 90000000000 20 none
    ∷ settles ("t" ∷ []) true 30
    ∷ uses "t" 40
    ∷ removes "t"
    ∷ []

capability_books_exact_example : ProcessBooks (calls own_digest some_calls empty_process)
capability_books_exact_example =
    capability_books_exact own_digest some_calls empty_process empty_process-Books

abbrev with_capability : Process
with_capability = record {
  world = record {
    runtime = runtime 1 162;
    site = site (("t", published) ∷ []) (("k", "t") ∷ []) 162;
  };
  others = [];
}

usable_now : (use_capability own_digest "t" 20 with_capability).1 ≡ true
unfolding use_capability is_usable prune_runtime dynamic_capability_entry_valid lookup
usable_now = refl

use_capability_sound_example :
    (e : CapabilityEntry) × (lookup "t" (prune_runtime 20 with_capability).site.capabilities
      ≡ some e)
    × (e.token ≡ "t")
    × (e.published ≡ true)
    × (20 < e.expires_at)
    × (20 < e.last_used + idle_expiry (prune_runtime 20 with_capability).site)
    × (lookup "t" (use_capability own_digest "t" 20 with_capability).0.site.capabilities
        ≡ some (record e { last_used = 20 }))
use_capability_sound_example = use_capability_sound own_digest "t" 20 with_capability usable_now
