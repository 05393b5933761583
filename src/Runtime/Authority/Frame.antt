-- ===== src/Runtime/Authority/Frame.antt =====
-- What the calls on authorities leave alone: the cache of capabilities and its counters.
use emby_panel.Prelude.{ℕ, ◌≡◌, refl, ◌==◌, Bool, String, Bool-cases, Option-cases, inl, inr}
use emby_panel.Prelude.Maps.{lookup}
use emby_panel.Runtime.{AuthorityEntry, World}
use emby_panel.Runtime.Authority.{
  finish, finish_open, finish_at, settle_entry, take_open, settled_entry, stays,
}

-- What the books read of a world.
abbrev pub SameCache : World → World → Type 0
SameCache w w' =
    (w'.site.capabilities ≡ w.site.capabilities)
    × (w'.site.capability_memory ≡ w.site.capability_memory)
    × (w'.runtime.capability_memory ≡ w.runtime.capability_memory)
    × (w'.runtime.active_capabilities ≡ w.runtime.active_capabilities)
    × (w'.site.limits ≡ w.site.limits)

settle_entry-SameCache :
    (commit : Bool) (a : String) (e : AuthorityEntry) (w : World)
    → SameCache w (settle_entry commit a e w)
unfolding settle_entry
settle_entry-SameCache commit a e w = elim (Bool-cases (stays (settled_entry commit e))) [
  | inl keeps ↦ rw keeps (refl, refl, refl, refl, refl)
  | inr goes ↦ rw goes (refl, refl, refl, refl, refl)
]

pub finish-SameCache : (commit : Bool) (h : ℕ) (w : World) → SameCache w (finish commit h w)
unfolding finish finish_open finish_at
finish-SameCache commit h w = elim (Option-cases (take_open h w.site.open_reservations)) [
  | inl done ↦ rw done (refl, refl, refl, refl, refl)
  | inr ((r, rs), open_now) ↦ elim (Option-cases (lookup r.authority w.site.authorities)) [
    | inl missing ↦ rw (open_now, missing) (refl, refl, refl, refl, refl)
    | inr (e, found) ↦ elim (Bool-cases (e.id == r.entry)) [
      | inl here ↦
          rw (open_now, found, here)
            (settle_entry-SameCache commit r.authority e
              (record w { site = record w.site { open_reservations = rs } }))
      | inr moved ↦ rw (open_now, found, moved) (refl, refl, refl, refl, refl)
    ]
  ]
]
