-- ===== src/Runtime/Capability/Memory/Pruning.antt =====
-- The books of all sites, kept by the pruning of the whole runtime.
use emby_panel.Prelude.{
  ℕ, ◌+◌, ◌≤◌, ◌≡◌, List, [], ◌∷◌, arith, All, Bool-cases, inl, inr, not, ◌&&◌, ◌==◌, ltb,
}
use emby_panel.Prelude.Maps.{total, size, HasDistinctKeys}
use emby_panel.Runtime.{Runtime, Site, World}
use emby_panel.Runtime.Capability.{
  Process, entry_memory, prune_site, prune_others, prune_states, prune_runtime, on_world,
  dynamic_capability_prune_interval, global_dynamic_max_active_capabilities,
  global_dynamic_max_site_capability_memory_bytes, global_dynamic_max_capability_memory_bytes,
}
use emby_panel.Runtime.Capability.Memory.{Books, prune_site-Books}

abbrev pub memory_of : List Site → ℕ
memory_of [] = 0
memory_of (s ∷ ss) = s.capability_memory + memory_of ss

abbrev pub active_of : List Site → ℕ
active_of [] = 0
active_of (s ∷ ss) = size s.capabilities + active_of ss

-- What the books say of another site alone.
pub record SiteBooks (s : Site) : Type 0 where
  pub distinct : HasDistinctKeys s.capabilities
  pub memory : s.capability_memory ≡ total entry_memory s.capabilities
  pub bound : size s.capabilities ≤ s.limits.max_active_capabilities
  pub memory_bound : s.capability_memory ≤ global_dynamic_max_site_capability_memory_bytes

-- What the cache of the process satisfies: each site's memory counter is the memory of its
-- entries, the runtime's counters are the sums over all sites, and no limit is exceeded.
pub record ProcessBooks (p : Process) : Type 0 where
  pub books : Books (memory_of p.others) (active_of p.others) p.world
  pub other_sites : All SiteBooks p.others

-- The runtime's counters against a list of sites and the rest of the process.
record Counts (memory active : ℕ) (r : Runtime) (ss : List Site) : Type 0 where
  counted_memory : r.capability_memory ≡ memory_of ss + memory
  counted_active : r.active_capabilities ≡ active_of ss + active
  sites : All SiteBooks ss
  active_bound : r.active_capabilities ≤ global_dynamic_max_active_capabilities
  memory_bound : r.capability_memory ≤ global_dynamic_max_capability_memory_bytes

prune_others-Counts :
    (memory active now : ℕ) (r : Runtime) (ss : List Site)
    → Counts memory active r ss
    → let (r', ss') = prune_others now r ss in Counts memory active r' ss'
unfolding prune_others
prune_others-Counts memory active now r [] v = v
prune_others-Counts memory active now r (s ∷ ss) v =
    let u : World = record { runtime = r; site = s } in
    let w = prune_site now u in
    let b : Books (memory_of ss + memory) (active_of ss + active) w =
      prune_site-Books (memory_of ss + memory) (active_of ss + active) now u (record {
        distinct = v.sites.0.distinct;
        site_memory = v.sites.0.memory;
        runtime_memory = omega (arith, v.counted_memory);
        runtime_active = omega (arith, v.counted_active);
        site_bound = v.sites.0.bound;
        site_memory_bound = v.sites.0.memory_bound;
        runtime_bound = v.active_bound;
        runtime_memory_bound = v.memory_bound;
      }) in
    let rest =
      prune_others-Counts (w.site.capability_memory + memory) (size w.site.capabilities + active)
        now w.runtime ss
        (record {
          counted_memory = omega (arith, b.runtime_memory);
          counted_active = omega (arith, b.runtime_active);
          sites = v.sites.1;
          active_bound = b.runtime_bound;
          memory_bound = b.runtime_memory_bound;
        }) in
    record {
      counted_memory = omega (arith, rest.counted_memory);
      counted_active = omega (arith, rest.counted_active);
      sites = (
        record {
          distinct = b.distinct;
          memory = b.site_memory;
          bound = b.site_bound;
          memory_bound = b.site_memory_bound;
        },
        rest.sites,
      );
      active_bound = rest.active_bound;
      memory_bound = rest.memory_bound;
    }

prune_states-Books : (now : ℕ) (p : Process) → ProcessBooks p → ProcessBooks (prune_states now p)
unfolding prune_states
prune_states-Books now p v =
    let w = prune_site now p.world in
    let b = prune_site-Books (memory_of p.others) (active_of p.others) now p.world v.books in
    let rest =
      prune_others-Counts w.site.capability_memory (size w.site.capabilities) now w.runtime p.others
        (record {
          counted_memory = omega (arith, b.runtime_memory);
          counted_active = omega (arith, b.runtime_active);
          sites = v.other_sites;
          active_bound = b.runtime_bound;
          memory_bound = b.runtime_memory_bound;
        }) in
    record {
      books = record {
        distinct = b.distinct;
        site_memory = b.site_memory;
        runtime_memory = omega (arith, rest.counted_memory);
        runtime_active = omega (arith, rest.counted_active);
        site_bound = b.site_bound;
        site_memory_bound = b.site_memory_bound;
        runtime_bound = rest.active_bound;
        runtime_memory_bound = rest.memory_bound;
      };
      other_sites = rest.sites;
    }

pub on_world-Books :
    (f : World → World) (p : Process)
    → (Books (memory_of p.others) (active_of p.others) p.world
        → Books (memory_of p.others) (active_of p.others) (f p.world))
    → ProcessBooks p
    → ProcessBooks (on_world f p)
unfolding on_world
on_world-Books f p keeps v = record { books = keeps v.books; other_sites = v.other_sites }

pub prune_runtime-Books :
    (now : ℕ) (p : Process) → ProcessBooks p → ProcessBooks (prune_runtime now p)
unfolding prune_runtime
prune_runtime-Books now p v =
    let early =
      not (p.runtime.last_capability_prune == 0)
      && ltb now (p.runtime.last_capability_prune + dynamic_capability_prune_interval) in
    let p' : Process = record p {
      world = record p.world { runtime = record p.runtime { last_capability_prune = now } };
    } in
    elim (Bool-cases early) [
      | inl recent ↦ rw recent v
      | inr due ↦ rw due (
          prune_states-Books now p' (record {
            books = record {
              distinct = v.books.distinct;
              site_memory = v.books.site_memory;
              runtime_memory = v.books.runtime_memory;
              runtime_active = v.books.runtime_active;
              site_bound = v.books.site_bound;
              site_memory_bound = v.books.site_memory_bound;
              runtime_bound = v.books.runtime_bound;
              runtime_memory_bound = v.books.runtime_memory_bound;
            };
            other_sites = v.other_sites;
          }))
    ]
