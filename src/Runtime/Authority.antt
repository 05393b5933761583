-- ===== src/Runtime/Authority.antt =====
-- dynamic_authority.go: reservations of authorities (scheme, host and port of a back end). An
-- entry counts the requests in flight; it stays if one of them commits, and goes with the last
-- one otherwise. The runtime counts the sites that hold each authority.
pub mod Counting
pub mod Frame
use emby_panel.Prelude.{
  ℕ, suc, ◌+◌, ◌-◌, ◌==◌, Bool, true, false, not, ◌&&◌, ◌||◌, Option, none, some, List, [], ◌∷◌,
  ◌++◌, String, length, leb, ltb, str_eq, if◌then◌else◌,
}
use emby_panel.Prelude.Maps.{Map, lookup, insert, delete, size}
use emby_panel.Runtime.{
  AuthorityEntry, Reservation, Runtime, Site, World, Reason, runtime_unavailable, capacity_limit,
  rate_limit,
}

abbrev pub global_dynamic_max_authorities : ℕ
global_dynamic_max_authorities = 16384

abbrev pub global_dynamic_max_new_authorities_minute : ℕ
global_dynamic_max_new_authorities_minute = 2400

abbrev pub minute : ℕ
minute = 60000000000

-- The values after now - 1 minute; they stand in the order of time.
unfoldable pub prune_dynamic_rate_window : ℕ → List ℕ → List ℕ
prune_dynamic_rate_window now [] = []
prune_dynamic_rate_window now (v ∷ values) =
    let rest = prune_dynamic_rate_window now values in
    if ltb now (v + minute) then v ∷ values else rest

-- runtime.authorities[authority], 0 where it is missing.
abbrev pub count_of : Option ℕ → ℕ
count_of none = 0
count_of (some n) = n

pub data Reserved : Type 0 where
  granted : ℕ → Reserved  -- the handle of the reservation
  refused : Reason → Reserved

pub prune_windows : ℕ → World → World
prune_windows now w = record {
  runtime = record w.runtime {
    new_authorities = prune_dynamic_rate_window now w.runtime.new_authorities;
  };
  site = record w.site { new_authorities = prune_dynamic_rate_window now w.site.new_authorities };
}

-- One more request for an authority that the site holds.
pub join : String → AuthorityEntry → World → World
join a e w = record w {
  site = record w.site {
    authorities =
        insert a (record e { in_flight = e.in_flight + 1; resolving = true }) w.site.authorities;
    open_reservations =
        record { handle = w.site.next_id; authority = a; entry = e.id } ∷ w.site.open_reservations;
    next_id = w.site.next_id + 1;
  };
}

pub is_full : String → World → Bool
is_full a w =
    leb w.site.limits.max_authorities (size w.site.authorities)
    || count_of (lookup a w.runtime.authorities) == 0
      && leb global_dynamic_max_authorities (size w.runtime.authorities)

pub is_rate_limited : String → World → Bool
is_rate_limited a w =
    leb w.site.limits.max_new_authorities_per_minute (length w.site.new_authorities)
    || count_of (lookup a w.runtime.authorities) == 0
      && leb global_dynamic_max_new_authorities_minute (length w.runtime.new_authorities)

-- A new entry, at address next_id, and its reservation, at the address behind it.
pub admit : String → ℕ → World → World
admit a now w =
    let n = count_of (lookup a w.runtime.authorities) in
    record {
      runtime = record w.runtime {
        authorities = insert a (n + 1) w.runtime.authorities;
        new_authorities =
            if n == 0 then w.runtime.new_authorities ++ now ∷ [] else w.runtime.new_authorities;
      };
      site = record w.site {
        authorities =
            insert a
              (record { id = w.site.next_id; in_flight = 1; committed = false; resolving = true })
              w.site.authorities;
        new_authorities = w.site.new_authorities ++ now ∷ [];
        open_reservations =
            record { handle = w.site.next_id + 1; authority = a; entry = w.site.next_id }
            ∷ w.site.open_reservations;
        next_id = w.site.next_id + 2;
      };
    }

pub reserve_new : String → ℕ → World → World × Reserved
reserve_new a now w =
    if is_full a w
    then (w, refused capacity_limit)
    else if is_rate_limited a w
    then (w, refused rate_limit)
    else (admit a now w, granted (w.site.next_id + 1))

reserve_at : Option AuthorityEntry → String → ℕ → World → World × Reserved
reserve_at (some e) a now w = (join a e w, granted w.site.next_id)
reserve_at none a now w = reserve_new a now (prune_windows now w)

pub reserve_authority : String → ℕ → World → World × Reserved
unfolding reserve_at
reserve_authority a now w =
    if str_eq a ""
    then (w, refused runtime_unavailable)
    else reserve_at (lookup a w.site.authorities) a now w

-- once.Do: the reservation behind the handle, and the others, if it has not run.
pub take_open : ℕ → List Reservation → Option (Reservation × List Reservation)
take_open h [] = none
take_open h (r ∷ rs) =
    let rest = take_open h rs in
    if r.handle == h
    then some (r, rs)
    else elim rest [ none ↦ none | some (q, qs) ↦ some (q, r ∷ qs) ]

-- One site less holds the authority.
pub release_global : String → Map ℕ → Map ℕ
release_global a m =
    let n = count_of (lookup a m) in if leb n 1 then delete a m else insert a (n - 1) m

-- The entry after one of its requests ended.
pub settled_entry : Bool → AuthorityEntry → AuthorityEntry
settled_entry commit e =
    let left = if ltb 0 e.in_flight then e.in_flight - 1 else e.in_flight in
    record e {
      committed = e.committed || commit;
      in_flight = left;
      resolving = if left == 0 then false else e.resolving;
    }

-- The entry stays if it is committed or still in use.
pub stays : AuthorityEntry → Bool
stays e = e.committed || ltb 0 e.in_flight

pub settle_entry : Bool → String → AuthorityEntry → World → World
settle_entry commit a e w =
    let e' = settled_entry commit e in
    if stays e'
    then record w { site = record w.site { authorities = insert a e' w.site.authorities } }
    else record {
      runtime = record w.runtime { authorities = release_global a w.runtime.authorities };
      site = record w.site { authorities = delete a w.site.authorities };
    }

-- The body of finishLocked under its once, for the reservation taken from the heap.
pub finish_at : Bool → Reservation → Option AuthorityEntry → World → World
finish_at commit r none w = w
finish_at commit r (some e) w = if e.id == r.entry then settle_entry commit r.authority e w else w

pub finish_open : Bool → Option (Reservation × List Reservation) → World → World
unfolding finish_at
finish_open commit none w = w
finish_open commit (some (r, rs)) w =
    let w' = record w { site = record w.site { open_reservations = rs } } in
    finish_at commit r (lookup r.authority w.site.authorities) w'

-- finish, commit and rollback of a reservation, all through finishLocked.
pub finish : Bool → ℕ → World → World
unfolding finish_open
finish commit h w = finish_open commit (take_open h w.site.open_reservations) w
