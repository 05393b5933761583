-- ===== src/Access/LimitListener/Permits.antt =====
-- The listener keeps within its limit, and loses no permit.
use mathlib.Core.Path.{subst}
use emby_panel.Prelude.{
  All, ℕ, ◌+◌, ◌≤◌, ◌≡◌, refl, ap, ◌∙◌, false, List, [], ◌∷◌, ◌++◌, arith, Bool-cases, inl, inr,
  if◌then◌else◌,
}
use emby_panel.Access.LimitListener.{
  Connection, Listener, limit_listener, take_permit, accept_failed, accept_connection,
  close_connection, close, Step, takes, gives_up, fails, accepts, closes_connection, closes, Reach,
  here, next,
}

-- The connections that still hold a permit.
abbrev pub holding : List Connection → ℕ
holding [] = 0
holding (c ∷ cs) = (if c.once then 1 else 0) + holding cs

-- Connections that are open below.
abbrev pub open_connections : List Connection → ℕ
open_connections [] = 0
open_connections (c ∷ cs) = (if c.open_below then 1 else 0) + open_connections cs

-- Its permit goes back when it is closed.
abbrev Matches : Connection → Type 0
Matches c = c.open_below ≡ c.once

record Inv (limit : ℕ) (l : Listener) : Type 0 where
  capacity : l.capacity ≡ limit
  counted : l.permits ≡ l.accepting + holding l.connections
  within : l.permits ≤ limit
  matching : All Matches l.connections

holding-append :
    (before : List Connection) (c : Connection) (after : List Connection)
    → holding (before ++ c ∷ after) ≡ (if c.once then 1 else 0) + holding (before ++ after)
holding-append [] c after = refl
holding-append (b ∷ before) c after = omega (arith, holding-append before c after)

All-replace :
    (P : Connection → Type 0) (before : List Connection) (c d : Connection)
    (after : List Connection)
    → P d
    → All P (before ++ c ∷ after)
    → All P (before ++ d ∷ after)
All-replace P [] c d after own h = (own, h.1)
All-replace P (b ∷ before) c d after own h = (h.0, All-replace P before c d after own h.1)

open_connections-eq : (cs : List Connection) → All Matches cs → open_connections cs ≡ holding cs
open_connections-eq [] h = refl
open_connections-eq (c ∷ cs) h = ground (arith, open_connections-eq cs h.1)

close_connection-Inv :
    (limit : ℕ) (before : List Connection) (c : Connection) (after : List Connection) (l : Listener)
    → l.connections ≡ before ++ c ∷ after
    → Inv limit l
    → Inv limit (close_connection before c after l)
unfolding close_connection
close_connection-Inv limit before c after l whole v =
    let closed : Connection = record { open_below = false; once = false } in
    let was = ap holding whole ∙ holding-append before c after in
    let is = holding-append before closed after in
    record {
      capacity = v.capacity;
      counted = elim (Bool-cases c.once) [
        | inl once ↦ ground (arith, was, is, v.counted)
        | inr never ↦ ground (arith, was, is, v.counted)
      ];
      within = ground (arith, v.within);
      matching =
          All-replace Matches before c closed after refl (subst (All Matches) whole v.matching);
    }

Step-Inv : (limit : ℕ) {l m : Listener} → Step l m → Inv limit l → Inv limit m
unfolding take_permit accept_failed accept_connection close
Step-Inv limit {l} (takes room e) v = rw e (record {
  capacity = v.capacity;
  counted = omega (arith, v.counted);
  within = ground (arith, v.capacity);
  matching = v.matching;
})
Step-Inv limit (gives_up done e) v = rw e v
Step-Inv limit (fails waiting e) v = rw e (record {
  capacity = v.capacity;
  counted = omega (arith, v.counted, waiting);
  within = omega (arith, v.within);
  matching = v.matching;
})
Step-Inv limit (accepts waiting e) v = rw e (record {
  capacity = v.capacity;
  counted = omega (arith, v.counted, waiting);
  within = v.within;
  matching = (refl, v.matching);
})
Step-Inv limit {l} (closes_connection before c after whole e) v =
    rw e (close_connection-Inv limit before c after l whole v)
Step-Inv limit (closes e) v = rw e (record {
  capacity = v.capacity;
  counted = v.counted;
  within = v.within;
  matching = v.matching;
})

Reach-Inv : (limit : ℕ) {l m : Listener} → Reach l m → Inv limit l → Inv limit m
Reach-Inv limit here v = v
Reach-Inv limit (next r s) v = Step-Inv limit s (Reach-Inv limit r v)

-- However accepts, failures and closes interleave, closes of a closed connection included: the
-- permits taken are exactly the Accept calls under way and the open connections, and never more
-- than the limit.
pub connections_limited :
    (limit : ℕ) (l : Listener)
    → Reach (limit_listener limit) l
    → (l.permits ≡ l.accepting + open_connections l.connections)
      × (l.accepting + open_connections l.connections ≤ limit)
unfolding limit_listener
connections_limited limit l r =
    let v =
      Reach-Inv limit r
        (record { capacity = refl; counted = refl; within = omega arith; matching = tt }) in
    let same = open_connections-eq l.connections v.matching in
    (omega (arith, v.counted, same), omega (arith, v.counted, same, v.within))
