-- ===== src/Runtime/Capability/Memory.antt =====
-- The books of the capability cache: what the code counts is what its maps hold.
pub mod Pruning
use mathlib.Core.Path.{subst}
use emby_panel.Prelude.{
  ℕ, suc, ◌+◌, ◌-◌, ◌≤◌, ◌<◌, ◌≡◌, refl, ◌==◌, Bool, true, false, Option, none, some, List, [], ◌∷◌,
  String, arith, All, ap, sym, ◌∙◌, str_eq, eq_iff, Bool-cases, Option-cases, ◌⊎◌, inl, inr,
  if◌then◌else◌, not, ◌&&◌, ◌||◌, leb, ltb,
}
use emby_panel.Prelude.Maps.{
  Map, lookup, insert, delete, total, size, HasDistinctKeys, insert-HasDistinctKeys,
  delete-HasDistinctKeys, lookup-insert, lookup-delete_ne, total-insert_new, total-insert_old,
  total-delete,
}
use emby_panel.Runtime.{CapabilityEntry, Reservation, AuthorityEntry, Runtime, Site, World}
use emby_panel.Runtime.Authority.Frame.{SameCache, finish-SameCache}
use emby_panel.Runtime.Capability.{
  Process, entry_memory, roll_back, drop_entry, delete_capability, is_stale, prune_entries,
  prune_site, prune_others, prune_states, prune_runtime, put_entry, on_world, idle_expiry,
  dynamic_capability_prune_interval, global_dynamic_max_active_capabilities,
  global_dynamic_max_site_capability_memory_bytes, global_dynamic_max_capability_memory_bytes,
}

-- `memory` and `active` are what the other sites of the runtime hold.
pub record Books (memory active : ℕ) (w : World) : Type 0 where
  pub distinct : HasDistinctKeys w.site.capabilities
  pub site_memory : w.site.capability_memory ≡ total entry_memory w.site.capabilities
  pub runtime_memory : w.runtime.capability_memory ≡ w.site.capability_memory + memory
  pub runtime_active : w.runtime.active_capabilities ≡ size w.site.capabilities + active
  pub site_bound : size w.site.capabilities ≤ w.site.limits.max_active_capabilities
  pub site_memory_bound : w.site.capability_memory ≤ global_dynamic_max_site_capability_memory_bytes
  pub runtime_bound : w.runtime.active_capabilities ≤ global_dynamic_max_active_capabilities
  pub runtime_memory_bound :
      w.runtime.capability_memory ≤ global_dynamic_max_capability_memory_bytes

roll_back-SameCache : (r : Option ℕ) (w : World) → SameCache w (roll_back r w)
unfolding roll_back
roll_back-SameCache none w = (refl, refl, refl, refl, refl)
roll_back-SameCache (some h) w = finish-SameCache false h w

module _ (memory active : ℕ) where
  pub SameCache-Books :
      (w w' : World) → SameCache w w' → Books memory active w → Books memory active w'
  SameCache-Books w w' (caps, own, all, count, limits) v = record {
    distinct = subst HasDistinctKeys (sym caps) v.distinct;
    site_memory = own ∙ v.site_memory ∙ ap (total entry_memory) (sym caps);
    runtime_memory = all ∙ v.runtime_memory ∙ ap (λ n. n + memory) (sym own);
    runtime_active = count ∙ v.runtime_active ∙ ap (λ m. size m + active) (sym caps);
    site_bound = rw (caps, limits) v.site_bound;
    site_memory_bound = rw own v.site_memory_bound;
    runtime_bound = rw count v.runtime_bound;
    runtime_memory_bound = rw all v.runtime_memory_bound;
  }

  drop_entry-Books :
      (key : String) (e held : CapabilityEntry) (w : World)
      → lookup key w.site.capabilities ≡ some held
      → entry_memory e ≡ entry_memory held
      → Books memory active w
      → Books memory active (drop_entry key e w)
  unfolding drop_entry
  drop_entry-Books key e held w found same v =
      let m = w.site.capabilities in
      let weight = total-delete entry_memory key held m found in
      let count = total-delete (λ _. 1) key held m found in
      record {
        distinct = delete-HasDistinctKeys key m v.distinct;
        site_memory = omega (arith, weight, same, v.site_memory);
        runtime_memory = omega (arith, weight, same, v.site_memory, v.runtime_memory);
        runtime_active = omega (arith, count, v.runtime_active);
        site_bound = omega (arith, count, v.site_bound);
        site_memory_bound = omega (arith, v.site_memory_bound);
        runtime_bound = omega (arith, v.runtime_bound);
        runtime_memory_bound = omega (arith, v.runtime_memory_bound);
      }

  pub delete_capability-Books :
      (key : String) (e held : CapabilityEntry) (w : World)
      → lookup key w.site.capabilities ≡ some held
      → entry_memory e ≡ entry_memory held
      → Books memory active w
      → Books memory active (delete_capability key e w)
  unfolding delete_capability
  delete_capability-Books key e held w found same v =
      let same_cache = roll_back-SameCache e.reservation w in
      drop_entry-Books key e held (roll_back e.reservation w) (ap (lookup key) same_cache.0 ∙ found)
        same (SameCache-Books w (roll_back e.reservation w) same_cache v)

  pub put_entry-Books :
      (key : String) (e held : CapabilityEntry) (w : World)
      → lookup key w.site.capabilities ≡ some held
      → entry_memory e ≡ entry_memory held
      → Books memory active w
      → Books memory active (put_entry key e w)
  unfolding put_entry
  put_entry-Books key e held w found same v =
      let m = w.site.capabilities in
      record {
        distinct = insert-HasDistinctKeys key e m v.distinct;
        site_memory =
            omega (arith, total-insert_old entry_memory key held e m found, same, v.site_memory);
        runtime_memory = v.runtime_memory;
        runtime_active =
            omega (arith, total-insert_old (λ _. 1) key held e m found, v.runtime_active);
        site_bound = omega (arith, total-insert_old (λ _. 1) key held e m found, v.site_bound);
        site_memory_bound = v.site_memory_bound;
        runtime_bound = v.runtime_bound;
        runtime_memory_bound = v.runtime_memory_bound;
      }

-- The rest of the snapshot that the loop walks still stands in the map.
abbrev Stands : Map CapabilityEntry → Map CapabilityEntry → Type 0
Stands [] m = Unit
Stands ((k, e) ∷ rest) m = (lookup k m ≡ some e) × Stands rest m

delete_capability-capabilities :
    (key : String) (e : CapabilityEntry) (w : World)
    → (delete_capability key e w).site.capabilities ≡ delete key w.site.capabilities
unfolding delete_capability drop_entry
delete_capability-capabilities key e w = ap (delete key) (roll_back-SameCache e.reservation w).0

Stands-delete :
    (key : String) (rest m : Map CapabilityEntry)
    → lookup key rest ≡ none
    → Stands rest m
    → Stands rest (delete key m)
unfolding lookup
Stands-delete key [] m missing s = tt
Stands-delete key ((k, e) ∷ rest) m missing s = (
  ground (arith, lookup-delete_ne key k m, eq_iff key k, eq_iff k key),
  Stands-delete key rest m (ground (arith, eq_iff k key)) s.1,
)

Stands-cons :
    (k : String) (e : CapabilityEntry) (rest m : Map CapabilityEntry)
    → lookup k rest ≡ none
    → Stands rest m
    → Stands rest ((k, e) ∷ m)
unfolding lookup
Stands-cons k e [] m missing s = tt
Stands-cons k e ((j, f) ∷ rest) m missing s = (
  ground (arith, eq_iff k j, eq_iff j k),
  Stands-cons k e rest m (ground (arith, eq_iff j k)) s.1,
)

Stands-refl : (m : Map CapabilityEntry) → HasDistinctKeys m → Stands m m
unfolding lookup
Stands-refl [] d = tt
Stands-refl ((k, e) ∷ m) d =
    (ground (arith, eq_iff k k), Stands-cons k e m m d.0 (Stands-refl m d.1))

prune_entries-Books :
    (memory active now idle : ℕ) (snapshot : Map CapabilityEntry) (w : World)
    → HasDistinctKeys snapshot
    → Stands snapshot w.site.capabilities
    → Books memory active w
    → Books memory active (prune_entries now idle snapshot w)
unfolding prune_entries
prune_entries-Books memory active now idle [] w d s v = v
prune_entries-Books memory active now idle ((k, e) ∷ rest) w d s v =
    elim (Bool-cases (is_stale now idle e)) [
      | inl stale ↦ rw stale (
          prune_entries-Books memory active now idle rest (delete_capability k e w) d.1
            (subst (Stands rest) (sym (delete_capability-capabilities k e w))
              (Stands-delete k rest w.site.capabilities d.0 s.1))
            (delete_capability-Books memory active k e e w s.0 refl v))
      | inr fresh ↦ rw fresh (prune_entries-Books memory active now idle rest w d.1 s.1 v)
    ]

pub prune_site-Books :
    (memory active now : ℕ) (w : World)
    → Books memory active w
    → Books memory active (prune_site now w)
unfolding prune_site
prune_site-Books memory active now w v =
    prune_entries-Books memory active now (idle_expiry w.site) w.site.capabilities w v.distinct
      (Stands-refl w.site.capabilities v.distinct) v
