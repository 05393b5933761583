-- ===== src/Runtime/Authority/Counting.antt =====
-- The reference counts of authorities are exact.
use mathlib.Core.Path.{subst}
use emby_panel.Prelude.{
  ℕ, ◌+◌, ◌-◌, ◌≤◌, ◌<◌, ◌≡◌, refl, ◌==◌, Bool, true, false, Option, none, some, List, [], ◌∷◌,
  String, arith, All, ◌++◌, ◌⊎◌, ap, sym, ◌∙◌, str_eq, eq_iff, Bool-cases, Option-cases, inl, inr,
  ==_iff, if◌then◌else◌,
}
use emby_panel.Prelude.Maps.{
  Map, lookup, insert, delete, HasDistinctKeys, insert-HasDistinctKeys, delete-HasDistinctKeys,
  lookup-insert, lookup-delete_self, lookup-delete_ne,
}
use emby_panel.Runtime.{AuthorityEntry, Reservation, World}
use emby_panel.Runtime.Authority.{
  count_of, prune_windows, join, is_full, is_rate_limited, admit, reserve_new, reserve_authority,
  take_open, release_global, settled_entry, stays, settle_entry, finish_at, finish_open, finish,
}

-- The open reservations of an authority.
abbrev pub open_for : String → List Reservation → ℕ
open_for a [] = 0
open_for a (r ∷ rs) = (if str_eq r.authority a then 1 else 0) + open_for a rs

abbrev pub in_flight_of : Option AuthorityEntry → ℕ
in_flight_of none = 0
in_flight_of (some e) = e.in_flight

abbrev pub holds : Option AuthorityEntry → ℕ
holds none = 0
holds (some e) = 1

-- The entry that a reservation points to is the one in the map.
abbrev pub PointsTo : Map AuthorityEntry → Reservation → Type 0
PointsTo m r = (e : AuthorityEntry) × (lookup r.authority m ≡ some e) × (e.id ≡ r.entry)

abbrev IsKept : Option AuthorityEntry → Type 0
IsKept none = Unit
IsKept (some e) = (e.committed ≡ true) ⊎ (0 < e.in_flight)

-- `others a` is the number of other sites that hold `a`.
pub record Inv (others : String → ℕ) (w : World) : Type 0 where
  pub distinct : HasDistinctKeys w.site.authorities
  pub distinct_global : HasDistinctKeys w.runtime.authorities
  pub counted :
      (a : String)
      → in_flight_of (lookup a w.site.authorities) ≡ open_for a w.site.open_reservations
  pub pointing : All (PointsTo w.site.authorities) w.site.open_reservations
  pub kept : (a : String) → IsKept (lookup a w.site.authorities)
  pub global :
      (a : String)
      → count_of (lookup a w.runtime.authorities) ≡ holds (lookup a w.site.authorities) + others a

-- What once.Do takes out stood in the list, and the others stay.
take_open_split :
    (h : ℕ) (rs : List Reservation) (r : Reservation) (qs : List Reservation)
    → take_open h rs ≡ some (r, qs)
    → (xs ys : List Reservation) × (rs ≡ xs ++ r ∷ ys) × (qs ≡ xs ++ ys)
unfolding take_open
take_open_split h [] r qs e = absurd (ground arith)
take_open_split h (q ∷ rs) r qs e = elim (Bool-cases (q.handle == h)) [
  | inl here ↦ ([], rs, ground arith, ground arith)
  | inr there ↦ elim (Option-cases (take_open h rs)) [
    | inl missing ↦ absurd (ground arith)
    | inr ((p, ps), found) ↦
        let (xs, ys, whole, rest) = take_open_split h rs p ps found in
        (q ∷ xs, ys, ground arith, ground arith)
  ]
]

open_for-append :
    (a : String) (xs : List Reservation) (r : Reservation) (ys : List Reservation)
    → open_for a (xs ++ r ∷ ys) ≡ (if str_eq r.authority a then 1 else 0) + open_for a (xs ++ ys)
open_for-append a [] r ys = refl
open_for-append a (x ∷ xs) r ys = omega (arith, open_for-append a xs r ys)

All-split :
    (P : Reservation → Type 0) (xs : List Reservation) (r : Reservation) (ys : List Reservation)
    → All P (xs ++ r ∷ ys)
    → P r × All P (xs ++ ys)
All-split P [] r ys h = h
All-split P (x ∷ xs) r ys h = let (own, rest) = All-split P xs r ys h.1 in (own, (h.0, rest))

-- Pointers stay good while the entries of the reservations that are left keep their address.
All-PointsTo :
    (m m' : Map AuthorityEntry) (rs : List Reservation)
    → ((r : Reservation) → 0 < open_for r.authority rs → PointsTo m r → PointsTo m' r)
    → All (PointsTo m) rs
    → All (PointsTo m') rs
All-PointsTo m m' [] keep v = tt
All-PointsTo m m' (r ∷ rs) keep v = (
  keep r (ground (arith, eq_iff r.authority r.authority)) v.0,
  All-PointsTo m m' rs (λ q h p. keep q (omega arith) p) v.1,
)

PointsTo-insert :
    (m : Map AuthorityEntry) (a : String) (e e' : AuthorityEntry) (r : Reservation)
    → lookup a m ≡ some e
    → e'.id ≡ e.id
    → PointsTo m r
    → PointsTo (insert a e' m) r
PointsTo-insert m a e e' r found same (f, at, points) = elim (Bool-cases (str_eq a r.authority)) [
  | inl own ↦
      (e', ground (arith, lookup-insert a r.authority e' m), ground (arith, eq_iff a r.authority))
  | inr other ↦ (f, ground (arith, lookup-insert a r.authority e' m), points)
]

PointsTo-insert_new :
    (m : Map AuthorityEntry) (a : String) (e' : AuthorityEntry) (r : Reservation)
    → lookup a m ≡ none
    → PointsTo m r
    → PointsTo (insert a e' m) r
PointsTo-insert_new m a e' r missing (f, at, points) =
    (f, ground (arith, lookup-insert a r.authority e' m, eq_iff a r.authority), points)

PointsTo-delete :
    (m : Map AuthorityEntry) (a : String) (r : Reservation)
    → str_eq a r.authority ≡ false
    → PointsTo m r
    → PointsTo (delete a m) r
PointsTo-delete m a r other (f, at, points) =
    (f, ground (arith, lookup-delete_ne a r.authority m), points)

settled_entry_fields :
    (commit : Bool) (e : AuthorityEntry)
    → ((settled_entry commit e).id ≡ e.id) × ((settled_entry commit e).in_flight ≡ e.in_flight - 1)
unfolding settled_entry
settled_entry_fields commit e = ground arith

settled_entry_kept :
    (commit : Bool) (e : AuthorityEntry)
    → stays (settled_entry commit e) ≡ true
    → IsKept (some (settled_entry commit e))
unfolding settled_entry stays
settled_entry_kept commit e h = ground arith

settled_entry_gone :
    (commit : Bool) (e : AuthorityEntry) → stays (settled_entry commit e) ≡ false → e.in_flight ≤ 1
unfolding settled_entry stays
settled_entry_gone commit e h = ground arith

release_global-HasDistinctKeys :
    (a : String) (m : Map ℕ) → HasDistinctKeys m → HasDistinctKeys (release_global a m)
unfolding release_global
release_global-HasDistinctKeys a m d =
    ground (
      arith,
      delete-HasDistinctKeys a m d,
      insert-HasDistinctKeys a (count_of (lookup a m) - 1) m d,
    )

module _ (others : String → ℕ) where
  prune_windows-Inv : (now : ℕ) (w : World) → Inv others w → Inv others (prune_windows now w)
  unfolding prune_windows
  prune_windows-Inv now w v = record {
    distinct = v.distinct;
    distinct_global = v.distinct_global;
    counted = v.counted;
    pointing = v.pointing;
    kept = v.kept;
    global = v.global;
  }

  join-Inv :
      (a : String) (e : AuthorityEntry) (w : World)
      → lookup a w.site.authorities ≡ some e
      → Inv others w
      → Inv others (join a e w)
  unfolding join
  join-Inv a e w found v =
      let m = w.site.authorities in
      let e' : AuthorityEntry = record e { in_flight = e.in_flight + 1; resolving = true } in
      record {
        distinct = insert-HasDistinctKeys a e' m v.distinct;
        distinct_global = v.distinct_global;
        counted = λ b. ground (arith, lookup-insert a b e' m, eq_iff a b, v.counted b, v.counted a);
        pointing = (
          (e', ground (arith, lookup-insert a a e' m, eq_iff a a), refl),
          All-PointsTo m (insert a e' m) w.site.open_reservations
              (λ r h p. PointsTo-insert m a e e' r found refl p) v.pointing,
        );
        kept = λ b. ground (arith, lookup-insert a b e' m, v.kept b);
        global = λ b. ground (arith, lookup-insert a b e' m, eq_iff a b, v.global b);
      }

  admit-Inv :
      (a : String) (now : ℕ) (w : World)
      → lookup a w.site.authorities ≡ none
      → Inv others w
      → Inv others (admit a now w)
  unfolding admit
  admit-Inv a now w missing v =
      let m = w.site.authorities in
      let n = count_of (lookup a w.runtime.authorities) in
      let e' : AuthorityEntry = record {
        id = w.site.next_id;
        in_flight = 1;
        committed = false;
        resolving = true;
      } in
      record {
        distinct = insert-HasDistinctKeys a e' m v.distinct;
        distinct_global = insert-HasDistinctKeys a (n + 1) w.runtime.authorities v.distinct_global;
        counted = λ b. ground (arith, lookup-insert a b e' m, eq_iff a b, v.counted b, v.counted a);
        pointing = (
          (e', ground (arith, lookup-insert a a e' m, eq_iff a a), refl),
          All-PointsTo m (insert a e' m) w.site.open_reservations
              (λ r h p. PointsTo-insert_new m a e' r missing p) v.pointing,
        );
        kept = λ b. ground (arith, lookup-insert a b e' m, v.kept b);
        global = λ b. ground (
          arith,
          lookup-insert a b e' m,
          lookup-insert a b (n + 1) w.runtime.authorities,
          eq_iff a b,
          v.global b,
          v.global a,
        );
      }

  release_global_counts :
      (a b : String) (m : Map ℕ)
      → HasDistinctKeys m
      → count_of (lookup b (release_global a m))
        ≡ (if str_eq a b then count_of (lookup a m) - 1 else count_of (lookup b m))
  unfolding release_global
  release_global_counts a b m d = ground (
    arith,
    lookup-insert a b (count_of (lookup a m) - 1) m,
    lookup-delete_self a m d,
    lookup-delete_ne a b m,
    eq_iff a b,
  )

  module _ (commit : Bool) (a : String) (e : AuthorityEntry) (w : World) (rs : List Reservation)
      (found : lookup a w.site.authorities ≡ some e) (v : Inv others w)
      (left : e.in_flight ≡ 1 + open_for a rs)
      (same : (b : String)
        → str_eq a b ≡ false
        → open_for b w.site.open_reservations ≡ open_for b rs)
      (pointing : All (PointsTo w.site.authorities) rs) where
    abbrev taken : World
    taken = record w { site = record w.site { open_reservations = rs } }

    settle_entry-stays :
        stays (settled_entry commit e) ≡ true → Inv others (settle_entry commit a e taken)
    unfolding settle_entry
    settle_entry-stays keeps =
        let m = w.site.authorities in
        let e' = settled_entry commit e in
        let (id, flying) = settled_entry_fields commit e in
        rw keeps (record {
          distinct = insert-HasDistinctKeys a e' m v.distinct;
          distinct_global = v.distinct_global;
          counted =
              λ b. ground (arith, lookup-insert a b e' m, eq_iff a b, v.counted b, same b, flying);
          pointing =
              All-PointsTo m (insert a e' m) rs (λ r h p. PointsTo-insert m a e e' r found id p)
                pointing;
          kept = λ b.
              ground (arith, lookup-insert a b e' m, v.kept b, settled_entry_kept commit e keeps);
          global = λ b. ground (arith, lookup-insert a b e' m, eq_iff a b, v.global b);
        })

    settle_entry_goes :
        stays (settled_entry commit e) ≡ false → Inv others (settle_entry commit a e taken)
    unfolding settle_entry
    settle_entry_goes goes =
        let m = w.site.authorities in
        let none_left : open_for a rs ≡ 0 = ground (arith, settled_entry_gone commit e goes) in
        let gone = lookup-delete_self a m v.distinct in
        rw goes (record {
          distinct = delete-HasDistinctKeys a m v.distinct;
          distinct_global =
              release_global-HasDistinctKeys a w.runtime.authorities v.distinct_global;
          counted =
              λ b. ground (arith, gone, lookup-delete_ne a b m, eq_iff a b, v.counted b, same b);
          pointing =
              All-PointsTo m (delete a m) rs
                (λ r h p. PointsTo-delete m a r (ground (arith, eq_iff a r.authority)) p) pointing;
          kept = λ b. ground (arith, gone, lookup-delete_ne a b m, eq_iff a b, v.kept b);
          global = λ b. ground (
            arith,
            gone,
            lookup-delete_ne a b m,
            release_global_counts a b w.runtime.authorities v.distinct_global,
            eq_iff a b,
            v.global b,
            v.global a,
          );
        })

    settle_entry-Inv : Inv others (settle_entry commit a e taken)
    settle_entry-Inv = elim (Bool-cases (stays (settled_entry commit e))) [
      | inl keeps ↦ settle_entry-stays keeps
      | inr goes ↦ settle_entry_goes goes
    ]

  finish-Inv : (commit : Bool) (h : ℕ) (w : World) → Inv others w → Inv others (finish commit h w)
  unfolding finish finish_at
  finish-Inv commit h w v = elim (Option-cases (take_open h w.site.open_reservations)) [
    | inl done ↦ rw (done, finish_open) v
    | inr ((r, rs), open_now) ↦
        let (xs, ys, whole, rest) = take_open_split h w.site.open_reservations r rs open_now in
        let (own, pointing) =
          All-split (PointsTo w.site.authorities) xs r ys
            (subst (All (PointsTo w.site.authorities)) whole v.pointing) in
        let (e, found, points) = own in
        let counts = λ (b : String).
          ap (open_for b) whole
          ∙ open_for-append b xs r ys
          ∙ ap (λ (l : List Reservation). (if str_eq r.authority b then 1 else 0) + open_for b l)
              (sym rest) in
        let here : (e.id == r.entry) ≡ true = (==_iff e.id r.entry).1 points in
        rw (open_now, found, here)
          (settle_entry-Inv commit r.authority e w rs found v
            (ground
              (arith, counts r.authority, v.counted r.authority, eq_iff r.authority r.authority))
            (λ b other. ground (arith, counts b))
            (subst (All (PointsTo w.site.authorities)) (sym rest) pointing))
  ]

  reserve_new-Inv :
      (a : String) (now : ℕ) (w : World)
      → lookup a w.site.authorities ≡ none
      → Inv others w
      → Inv others (reserve_new a now w).0
  unfolding reserve_new
  reserve_new-Inv a now w missing v = elim (Bool-cases (is_full a w)) [
    | inl full ↦ rw full v
    | inr room ↦ elim (Bool-cases (is_rate_limited a w)) [
      | inl limited ↦ rw (room, limited) v
      | inr free ↦ rw (room, free) (admit-Inv a now w missing v)
    ]
  ]

  lookup-prune_windows :
      (a : String) (now : ℕ) (w : World)
      → lookup a (prune_windows now w).site.authorities ≡ lookup a w.site.authorities
  unfolding prune_windows
  lookup-prune_windows a now w = refl

  reserve_authority-Inv :
      (a : String) (now : ℕ) (w : World) → Inv others w → Inv others (reserve_authority a now w).0
  unfolding reserve_authority
  reserve_authority-Inv a now w v = elim (Bool-cases (str_eq a "")) [
    | inl empty ↦ rw empty v
    | inr named ↦ elim (Option-cases (lookup a w.site.authorities)) [
      | inr (e, found) ↦ rw (named, found) (join-Inv a e w found v)
      | inl missing ↦
          rw (named, missing)
            (reserve_new-Inv a now (prune_windows now w) (lookup-prune_windows a now w ∙ missing)
              (prune_windows-Inv now w v))
    ]
  ]

-- Calls on one site, in any order.
pub data Step (w : World) (w' : World) : Type 0 where
  reserves : (a : String) (now : ℕ) → w' ≡ (reserve_authority a now w).0 → Step w w'
  finishes : (commit : Bool) (h : ℕ) → w' ≡ finish commit h w → Step w w'

pub data Reach (w : World) : World → Type 0 where
  here : Reach w w
  next : {u v : World} → Reach w u → Step u v → Reach w v

Step-Inv : (others : String → ℕ) {w w' : World} → Step w w' → Inv others w → Inv others w'
Step-Inv others {w} (reserves a now e) v = rw e (reserve_authority-Inv others a now w v)
Step-Inv others {w} (finishes commit h e) v = rw e (finish-Inv others commit h w v)

-- Whatever is reserved, committed and rolled back, once or more than once, in whatever order: an
-- authority's count of requests in flight is the number of its unfinished reservations, each of
-- these points to the entry in the map, an entry stays only while it is committed or in use, and
-- the runtime counts exactly the sites that hold the authority.
pub references_exact :
    (others : String → ℕ) (w w' : World) → Inv others w → Reach w w' → Inv others w'
references_exact others w w' v here = v
references_exact others w w' v (next {u} r s) = Step-Inv others s (references_exact others w u v r)
