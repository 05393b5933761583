-- ===== src/Runtime/Capability/Calls/Books.antt =====
-- The calls on the capability cache keep its books.
use emby_panel.Prelude.{
  ℕ, ◌-◌, ◌≡◌, refl, ◌==◌, Bool, true, false, not, ◌&&◌, Option, none, some, [], ◌∷◌, String, arith,
  ap, ◌∙◌, Bool-cases, Option-cases, inl, inr, str_eq, ltb,
}
use emby_panel.Prelude.Maps.{Map, lookup, insert-HasDistinctKeys, total-insert_new}
use emby_panel.Runtime.{CapabilityEntry, World}
use emby_panel.Runtime.Authority.Frame.{SameCache, finish-SameCache}
use emby_panel.Runtime.Capability.{
  dynamic_capability_entry_memory, entry_memory, idle_expiry, target_of,
}
use emby_panel.Runtime.Capability.Memory.{
  Books, SameCache-Books, delete_capability-Books, put_entry-Books,
}
use emby_panel.Runtime.Capability.Calls.{
  one_more_use, forget_key, drop_reusable, is_reusable, reuse_entry, has_no_room, add_entry,
  reuse_at, register_new, known_entry, register_known, register_at, drop_unusable, touch,
  remove_entry, commit_reservation, settle_entry, settle_found, settle_counts,
}

commit_reservation-SameCache : (r : Option ℕ) (w : World) → SameCache w (commit_reservation r w)
unfolding commit_reservation
commit_reservation-SameCache none w = (refl, refl, refl, refl, refl)
commit_reservation-SameCache (some h) w = finish-SameCache true h w

module _ (memory active : ℕ) where
  abbrev Kept : World → Type 0
  Kept w = Books memory active w

  forget_key-Books : (k : String) (w : World) → Kept w → Kept (forget_key k w)
  unfolding forget_key
  forget_key-Books k w v =
      SameCache-Books memory active w (forget_key k w) (refl, refl, refl, refl, refl) v

  lookup-forget_key :
      (key k : String) (w : World)
      → lookup key (forget_key k w).site.capabilities ≡ lookup key w.site.capabilities
  unfolding forget_key
  lookup-forget_key key k w = refl

  drop_reusable-Books :
      (key k token : String) (o : Option CapabilityEntry) (w : World)
      → lookup key w.site.capabilities ≡ o
      → Kept w
      → Kept (drop_reusable key k token o w)
  unfolding drop_reusable
  drop_reusable-Books key k token none w found v = forget_key-Books k w v
  drop_reusable-Books key k token (some e) w found v =
      elim (Bool-cases (str_eq e.token token && e.pending_uses == 0)) [
        | inl unused ↦ rw unused (
            delete_capability-Books memory active key e e (forget_key k w)
              (lookup-forget_key key k w ∙ found) refl (forget_key-Books k w v))
        | inr other ↦ rw other (forget_key-Books k w v)
      ]

  reuse_entry-Books :
      (key : String) (o : Option CapabilityEntry) (w : World)
      → lookup key w.site.capabilities ≡ o
      → Kept w
      → Kept (reuse_entry key o w)
  unfolding reuse_entry one_more_use entry_memory
  reuse_entry-Books key none w found v = v
  reuse_entry-Books key (some e) w found v =
      put_entry-Books memory active key (one_more_use e) e w found refl v

  pub drop_unusable-Books :
      (key : String) (o : Option CapabilityEntry) (w : World)
      → lookup key w.site.capabilities ≡ o
      → Kept w
      → Kept (drop_unusable key o w)
  unfolding drop_unusable
  drop_unusable-Books key none w found v = v
  drop_unusable-Books key (some e) w found v = elim (Bool-cases (e.pending_uses == 0)) [
    | inl unused ↦ rw unused (delete_capability-Books memory active key e e w found refl v)
    | inr used ↦ rw used v
  ]

  pub touch-Books :
      (key : String) (now : ℕ) (o : Option CapabilityEntry) (w : World)
      → lookup key w.site.capabilities ≡ o
      → Kept w
      → Kept (touch key now o w)
  unfolding touch entry_memory
  touch-Books key now none w found v = v
  touch-Books key now (some e) w found v =
      put_entry-Books memory active key (record e { last_used = now }) e w found refl v

  pub remove_entry-Books :
      (key : String) (o : Option CapabilityEntry) (w : World)
      → lookup key w.site.capabilities ≡ o
      → Kept w
      → Kept (remove_entry key o w)
  unfolding remove_entry
  remove_entry-Books key none w found v = v
  remove_entry-Books key (some e) w found v =
      delete_capability-Books memory active key e e w found refl v

  add_entry-Books :
      (key : String) (e : CapabilityEntry) (w : World)
      → lookup key w.site.capabilities ≡ none
      → has_no_room (entry_memory e) w ≡ false
      → Kept w
      → Kept (add_entry key e (entry_memory e) w)
  unfolding add_entry has_no_room
  add_entry-Books key e w missing room v =
      let m = w.site.capabilities in
      let weight = total-insert_new entry_memory key e m missing in
      let count = total-insert_new (λ _. 1) key e m missing in
      record {
        distinct = insert-HasDistinctKeys key e m v.distinct;
        site_memory = omega (arith, weight, v.site_memory);
        runtime_memory = omega (arith, v.runtime_memory);
        runtime_active = omega (arith, count, v.runtime_active);
        site_bound = ground (arith, count);
        site_memory_bound = ground arith;
        runtime_bound = ground arith;
        runtime_memory_bound = ground arith;
      }

  module _ (digest : String → String) where
    register_new-Books :
        (token k : String) (expires now : ℕ) (r : Option ℕ) (w : World)
        → Kept w
        → Kept (register_new digest token k expires now r w).0
    unfolding register_new entry_memory
    register_new-Books token k expires now r w v =
        elim (Bool-cases (has_no_room (dynamic_capability_entry_memory token k) w)) [
          | inl full ↦ rw full v
          | inr room ↦ elim (Option-cases (lookup (digest token) w.site.capabilities)) [
            | inr (e, known) ↦ rw (room, known) v
            | inl new ↦
                rw (room, new)
                  (add_entry-Books (digest token)
                    (record {
                      expires_at = expires;
                      last_used = now;
                      token = token;
                      cache_key = k;
                      pending_uses = 1;
                      published = false;
                      reservation = r;
                    })
                    w new room v)
          ]
        ]

    known_entry_found :
        (existing k : String) (w : World) (e : CapabilityEntry)
        → known_entry digest existing k w ≡ some e
        → lookup (digest existing) w.site.capabilities ≡ some e
    unfolding known_entry
    known_entry_found existing k w e h = ground arith

    register_known-Books :
        (existing token k : String) (expires now : ℕ) (r : Option ℕ) (o : Option CapabilityEntry)
        (w : World)
        → known_entry digest existing k w ≡ o
        → Kept w
        → Kept (register_known digest existing token k expires now r o w).0
    unfolding register_known one_more_use entry_memory
    register_known-Books existing token k expires now r (some e) w known v =
        put_entry-Books memory active (digest existing) (one_more_use e) e w
          (known_entry_found existing k w e known) refl v
    register_known-Books existing token k expires now r none w known v =
        register_new-Books token k expires now r (forget_key k w) (forget_key-Books k w v)

    pub register_at-Books :
        (token k : String) (expires now : ℕ) (r : Option ℕ) (w : World)
        → Kept w
        → Kept (register_at digest token k expires now r w).0
    unfolding register_at
    register_at-Books token k expires now r w v =
        let existing = target_of (lookup k w.site.capability_by_target) in
        elim (Bool-cases (not (str_eq existing ""))) [
          | inl known ↦ rw known (
              register_known-Books existing token k expires now r (known_entry digest existing k w)
                w refl v)
          | inr new ↦ rw new (register_new-Books token k expires now r w v)
        ]

    pub reuse_at-Books :
        (k : String) (now : ℕ) (w : World) → Kept w → Kept (reuse_at digest k now w).0
    unfolding reuse_at
    reuse_at-Books k now w v =
        let token = target_of (lookup k w.site.capability_by_target) in
        let o = lookup (digest token) w.site.capabilities in
        elim (Bool-cases (is_reusable token k now (idle_expiry w.site) o)) [
          | inl usable ↦ rw usable (reuse_entry-Books (digest token) o w refl v)
          | inr stale ↦ rw stale (drop_reusable-Books (digest token) k token o w refl v)
        ]

    settle_entry-Books :
        (key : String) (e : CapabilityEntry) (count : ℕ) (published : Bool) (w : World)
        → lookup key w.site.capabilities ≡ some e
        → Kept w
        → Kept (settle_entry key e count published w)
    unfolding settle_entry entry_memory
    settle_entry-Books key e count true w found v =
        let same = commit_reservation-SameCache e.reservation w in
        let w' = commit_reservation e.reservation w in
        put_entry-Books memory active key
          (record e { pending_uses = e.pending_uses - count; published = true; reservation = none })
          e w' (ap (lookup key) same.0 ∙ found) refl (SameCache-Books memory active w w' same v)
    settle_entry-Books key e count false w found v =
        let left : CapabilityEntry = record e { pending_uses = e.pending_uses - count } in
        elim (Bool-cases (left.pending_uses == 0 && not left.published)) [
          | inl over ↦ rw over (delete_capability-Books memory active key left e w found refl v)
          | inr kept ↦ rw kept (put_entry-Books memory active key left e w found refl v)
        ]

    settle_found-Books :
        (key : String) (o : Option CapabilityEntry) (count : ℕ) (published : Bool) (w : World)
        → lookup key w.site.capabilities ≡ o
        → Kept w
        → Kept (settle_found key o count published w)
    unfolding settle_found
    settle_found-Books key none count published w found v = v
    settle_found-Books key (some e) count published w found v =
        elim (Bool-cases (ltb e.pending_uses count)) [
          | inl fewer ↦ rw fewer v
          | inr enough ↦ rw enough (settle_entry-Books key e count published w found v)
        ]

    pub settle_counts-Books :
        (counts : Map ℕ) (published : Bool) (w : World)
        → Kept w
        → Kept (settle_counts counts published w)
    unfolding settle_counts
    settle_counts-Books [] published w v = v
    settle_counts-Books ((key, count) ∷ counts) published w v =
        settle_counts-Books counts published
          (settle_found key (lookup key w.site.capabilities) count published w)
          (settle_found-Books key (lookup key w.site.capabilities) count published w refl v)
