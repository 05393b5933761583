-- ===== src/Runtime/Capability/Calls/History.antt =====
-- Whole calls on the capability cache, in any order, and what a caller learns from them.
use emby_panel.Prelude.{
  ℕ, ◌+◌, ◌<◌, ◌≡◌, refl, Bool, true, not, ◌&&◌, ◌||◌, Option, none, some, List, [], ◌∷◌, String,
  arith, Bool-cases, inl, inr, str_eq, eq_iff, ltb,
}
use emby_panel.Prelude.Maps.{lookup, lookup-insert}
use emby_panel.Runtime.{CapabilityEntry}
use emby_panel.Runtime.Capability.{
  Process, idle_expiry, dynamic_capability_entry_valid, prune_runtime, put_entry, on_world,
}
use emby_panel.Runtime.Capability.Memory.Pruning.{
  ProcessBooks, on_world-Books, prune_runtime-Books, memory_of, active_of,
}
use emby_panel.Runtime.Capability.Calls.{
  reuse_capability, register_capability, is_usable, drop_unusable, touch, has_capability,
  use_capability, remove_entry, remove_capability, count_uses, settle_counts, settle_capabilities,
}
use emby_panel.Runtime.Capability.Calls.Books.{
  reuse_at-Books, register_at-Books, drop_unusable-Books, touch-Books, remove_entry-Books,
  settle_counts-Books,
}

module _ (digest : String → String) where
  reuse_capability-Books :
      (k : String) (now : ℕ) (p : Process)
      → ProcessBooks p
      → ProcessBooks (reuse_capability digest k now p).0
  unfolding reuse_capability
  reuse_capability-Books k now p v = elim (Bool-cases (str_eq k "")) [
    | inl empty ↦ rw empty v
    | inr named ↦
        let v' = prune_runtime-Books now p v in
        let p' = prune_runtime now p in
        rw named (record {
          books =
              reuse_at-Books (memory_of p'.others) (active_of p'.others) digest k now p'.world
                v'.books;
          other_sites = v'.other_sites;
        })
  ]

  register_capability-Books :
      (token k : String) (expires now : ℕ) (r : Option ℕ) (p : Process)
      → ProcessBooks p
      → ProcessBooks (register_capability digest token k expires now r p).0
  unfolding register_capability
  register_capability-Books token k expires now r p v =
      elim (Bool-cases (str_eq token "" || str_eq k "" || not (ltb now expires))) [
        | inl bad ↦ rw bad v
        | inr good ↦
            let v' = prune_runtime-Books now p v in
            let p' = prune_runtime now p in
            rw good (record {
              books =
                  register_at-Books (memory_of p'.others) (active_of p'.others) digest token k
                    expires now r p'.world v'.books;
              other_sites = v'.other_sites;
            })
      ]

  has_capability-Books :
      (token : String) (now : ℕ) (p : Process)
      → ProcessBooks p
      → ProcessBooks (has_capability digest token now p).0
  unfolding has_capability
  has_capability-Books token now p v = elim (Bool-cases (str_eq token "")) [
    | inl empty ↦ rw empty v
    | inr named ↦
        let v' = prune_runtime-Books now p v in
        let p' = prune_runtime now p in
        let o = lookup (digest token) p'.site.capabilities in
        elim (Bool-cases (is_usable token now (idle_expiry p'.site) o)) [
          | inl usable ↦ rw (named, usable) v'
          | inr not_usable ↦
              rw (named, not_usable)
                (on_world-Books (drop_unusable (digest token) o) p'
                  (drop_unusable-Books (memory_of p'.others) (active_of p'.others) (digest token) o
                    p'.world refl)
                  v')
        ]
  ]

  use_capability-Books :
      (token : String) (now : ℕ) (p : Process)
      → ProcessBooks p
      → ProcessBooks (use_capability digest token now p).0
  unfolding use_capability
  use_capability-Books token now p v = elim (Bool-cases (str_eq token "")) [
    | inl empty ↦ rw empty v
    | inr named ↦
        let v' = prune_runtime-Books now p v in
        let p' = prune_runtime now p in
        let o = lookup (digest token) p'.site.capabilities in
        elim (Bool-cases (is_usable token now (idle_expiry p'.site) o)) [
          | inl usable ↦
              rw (named, usable)
                (on_world-Books (touch (digest token) now o) p'
                  (touch-Books (memory_of p'.others) (active_of p'.others) (digest token) now o
                    p'.world refl)
                  v')
          | inr not_usable ↦
              rw (named, not_usable)
                (on_world-Books (drop_unusable (digest token) o) p'
                  (drop_unusable-Books (memory_of p'.others) (active_of p'.others) (digest token) o
                    p'.world refl)
                  v')
        ]
  ]

  remove_capability-Books :
      (token : String) (p : Process)
      → ProcessBooks p
      → ProcessBooks (remove_capability digest token p)
  unfolding remove_capability
  remove_capability-Books token p v = elim (Bool-cases (str_eq token "")) [
    | inl empty ↦ rw empty v
    | inr named ↦
        let o = lookup (digest token) p.site.capabilities in
        rw named (
          on_world-Books (remove_entry (digest token) o) p
            (remove_entry-Books (memory_of p.others) (active_of p.others) (digest token) o p.world
              refl)
            v)
  ]

  settle_capabilities-Books :
      (tokens : List String) (publish : Bool) (now : ℕ) (p : Process)
      → ProcessBooks p
      → ProcessBooks (settle_capabilities digest tokens publish now p).0
  unfolding settle_capabilities
  settle_capabilities-Books [] publish now p v = v
  settle_capabilities-Books (token ∷ tokens) publish now p v =
      let (counts, valid) = count_uses digest publish now p.world (token ∷ tokens) [] true in
      on_world-Books (settle_counts counts (publish && valid)) p
        (settle_counts-Books (memory_of p.others) (active_of p.others) digest counts
          (publish && valid) p.world)
        v

-- The calls of a site's proxy on the cache.
pub data Call : Type 0 where
  reuses : (cache_key : String) (now : ℕ) → Call
  registers : (token cache_key : String) (expires_at now : ℕ) (reservation : Option ℕ) → Call
  settles : (tokens : List String) (publish : Bool) (now : ℕ) → Call
  asks uses : (token : String) (now : ℕ) → Call
  removes : (token : String) → Call

unfoldable pub call : (String → String) → Call → Process → Process
call digest (reuses k now) p = (reuse_capability digest k now p).0
call digest (registers token k expires now r) p =
    (register_capability digest token k expires now r p).0
call digest (settles tokens publish now) p = (settle_capabilities digest tokens publish now p).0
call digest (asks token now) p = (has_capability digest token now p).0
call digest (uses token now) p = (use_capability digest token now p).0
call digest (removes token) p = remove_capability digest token p

call-Books :
    (digest : String → String) (c : Call) (p : Process)
    → ProcessBooks p
    → ProcessBooks (call digest c p)
unfolding call
call-Books digest (reuses k now) p v = reuse_capability-Books digest k now p v
call-Books digest (registers token k expires now r) p v =
    register_capability-Books digest token k expires now r p v
call-Books digest (settles tokens publish now) p v =
    settle_capabilities-Books digest tokens publish now p v
call-Books digest (asks token now) p v = has_capability-Books digest token now p v
call-Books digest (uses token now) p v = use_capability-Books digest token now p v
call-Books digest (removes token) p v = remove_capability-Books digest token p v

unfoldable pub calls : (String → String) → List Call → Process → Process
calls digest [] p = p
calls digest (c ∷ cs) p = calls digest cs (call digest c p)

-- From a process whose books are right, any sequence of calls on the capability cache, with any
-- arguments, any digest and any order of iteration, leaves the books right: the site's memory
-- counter is the memory of the entries in its map, the runtime's two counters are the sums over
-- all sites, and neither the site's nor the runtime's limits on entries and memory are exceeded.
pub capability_books_exact :
    (digest : String → String) (cs : List Call) (p : Process)
    → ProcessBooks p
    → ProcessBooks (calls digest cs p)
unfolding calls
capability_books_exact digest [] p v = v
capability_books_exact digest (c ∷ cs) p v =
    capability_books_exact digest cs (call digest c p) (call-Books digest c p v)

usable_entry :
    (token : String) (now idle : ℕ) (o : Option CapabilityEntry)
    → is_usable token now idle o ≡ true
    → (e : CapabilityEntry) × (o ≡ some e)
      × (e.token ≡ token)
      × (e.published ≡ true)
      × (now < e.expires_at)
      × (now < e.last_used + idle)
unfolding is_usable dynamic_capability_entry_valid
usable_entry token now idle none h = absurd (ground arith)
usable_entry token now idle (some e) h =
    (e, refl, ground (arith, eq_iff e.token token), ground arith, ground arith, ground arith)

-- Where useCapability says yes, the map has, under the token's digest and before the call dropped
-- or changed anything but what is pruned, an entry for this very token that is published, is not
-- expired and was used within the idle limit; the call leaves that entry with its last use now.
pub use_capability_sound :
    (digest : String → String) (token : String) (now : ℕ) (p : Process)
    → (use_capability digest token now p).1 ≡ true
    → (e : CapabilityEntry) × (lookup (digest token) (prune_runtime now p).site.capabilities
        ≡ some e)
      × (e.token ≡ token)
      × (e.published ≡ true)
      × (now < e.expires_at)
      × (now < e.last_used + idle_expiry (prune_runtime now p).site)
      × (lookup (digest token) (use_capability digest token now p).0.site.capabilities
          ≡ some (record e { last_used = now }))
unfolding use_capability on_world put_entry touch
use_capability_sound digest token now p h = elim (Bool-cases (str_eq token "")) [
  | inl empty ↦ absurd (ground arith)
  | inr named ↦
      let p' = prune_runtime now p in
      let o = lookup (digest token) p'.site.capabilities in
      elim (Bool-cases (is_usable token now (idle_expiry p'.site) o)) [
        | inr not_usable ↦ absurd (ground arith)
        | inl usable ↦
            let (e, found, same, published, fresh, active) =
              usable_entry token now (idle_expiry p'.site) o usable in
            (
              e,
              found,
              same,
              published,
              fresh,
              active,
              ground (
                arith,
                named,
                usable,
                found,
                lookup-insert (digest token) (digest token) (record e { last_used = now })
                    p'.site.capabilities,
                eq_iff (digest token) (digest token),
              ),
            )
      ]
]
