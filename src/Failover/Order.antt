-- ===== src/Failover/Order.antt =====
-- The order in which a request tries the lines.
use mathlib.Core.List.Perm
use mathlib.Core.List.{Perm, perm_middle}
use emby_panel.Prelude.{
  ℕ, ◌≡◌, refl, sym, ◌∙◌, true, false, List, [], ◌∷◌, ◌++◌, String, arith, All, eq_iff, ◌≢◌,
  Bool-cases, inl, inr, if◌then◌else◌,
}
use emby_panel.Failover.{
  FailoverState, cooling, prune_failed, refresh, probes_primary, Rank, first, second, last, rank,
  same_rank, with_rank, in_order, ordered,
}

place :
    {T : Type 0} (t : T) (a b c ts : List T) (r : Rank)
    → Perm ((a ++ b) ++ c) ts
    → Perm
        (((if same_rank r first then t ∷ a else a) ++ (if same_rank r second then t ∷ b else b))
          ++ (if same_rank r last then t ∷ c else c))
        (t ∷ ts)
unfolding same_rank
place t a b c ts first p = Perm.cons t p
place t a b c ts second p = Perm.trans (Perm.append_right c (perm_middle a b)) (Perm.cons t p)
place t a b c ts last p = Perm.trans (perm_middle (a ++ b) c) (Perm.cons t p)

All-append :
    {T : Type 0} (P : T → Type 0) (before after : List T)
    → All P before
    → All P after
    → All P (before ++ after)
All-append P [] after _ right = right
All-append P (t ∷ before) after (own, left) right = (own, All-append P before after left right)

pub same_rank_eq : (r q : Rank) → same_rank r q ≡ true → r ≡ q
unfolding same_rank
same_rank_eq r q h = ground arith

with_rank_head :
    {T : Type 0} (f : T → Rank) (r : Rank) (t : T) (ts : List T)
    → All (λ x. f x ≡ r) ts
    → All (λ x. f x ≡ r) (if same_rank (f t) r then t ∷ ts else ts)
with_rank_head f r t ts h = elim (Bool-cases (same_rank (f t) r)) [
  | inl e ↦ rw e (same_rank_eq (f t) r e, h)
  | inr e ↦ rw e h
]

module _ {T : Type 0} (key : T → String) where
  -- Every target stands in one of the three lists, once.
  in_order-perm : (f : String → Rank) (ts : List T) → Perm (in_order key f ts) ts
  unfolding in_order with_rank
  in_order-perm f [] = Perm.refl []
  in_order-perm f (t ∷ ts) =
      place t (with_rank key f first ts) (with_rank key f second ts) (with_rank key f last ts) ts
        (f (key t)) (in_order-perm f ts)

  with_rank-All :
      (f : String → Rank) (r : Rank) (ts : List T) → All (λ t. f (key t) ≡ r) (with_rank key f r ts)
  unfolding with_rank
  with_rank-All f r [] = tt
  with_rank-All f r (t ∷ ts) =
      with_rank_head (λ x. f (key x)) r t (with_rank key f r ts) (with_rank-All f r ts)

  All-map : (P Q : T → Type 0) → ((t : T) → P t → Q t) → (ts : List T) → All P ts → All Q ts
  All-map P Q h [] v = tt
  All-map P Q h (t ∷ ts) v = (h t v.0, All-map P Q h ts v.1)

  -- The rank of a target is the last exactly when it cools down: the probe and the preferred
  -- target do not.
  rank-last :
      (primary : String) (now : ℕ) (s : FailoverState) (k : String)
      → let probe = probes_primary primary now s in
        ((rank probe primary now s k ≡ last) → cooling s k now ≡ true)
        × ((rank probe primary now s k ≢ last) → cooling s k now ≡ false)
  unfolding rank probes_primary
  rank-last primary now s k = ground (arith, eq_iff k primary)

  abbrev pub Cooling : ℕ → FailoverState → T → Type 0
  Cooling now s t = cooling s (key t) now ≡ true

  abbrev pub Ready : ℕ → FailoverState → T → Type 0
  Ready now s t = cooling s (key t) now ≡ false

  cooling-refresh :
      (now : ℕ) (s : FailoverState) (k : String) → cooling (refresh now s) k now ≡ cooling s k now
  unfolding refresh prune_failed
  cooling-refresh now s k = ground arith

  -- Of two or more lines each is tried once, and none that cools down after a failure comes before
  -- one that does not.
  pub ordered_waiting_last :
      (t u : T) (ts : List T) (now : ℕ) (s : FailoverState)
      → (ready waiting : List T) × ((ordered key (t ∷ u ∷ ts) now s).1 ≡ ready ++ waiting)
        × All (Ready now s) ready
        × All (Cooling now s) waiting
        × Perm (ready ++ waiting) (t ∷ u ∷ ts)
  unfolding ordered in_order
  ordered_waiting_last t u ts now s =
      let s' = refresh now s in
      let f = rank (probes_primary (key t) now s') (key t) now s' in
      let xs = t ∷ u ∷ ts in
      let ready = λ (x : T) (e : f (key x) ≢ last).
        sym (cooling-refresh now s (key x)) ∙ (rank-last (key t) now s' (key x)).1 e in
      let a = with_rank-All f first xs in
      let b = with_rank-All f second xs in
      (
        with_rank key f first xs ++ with_rank key f second xs,
        with_rank key f last xs,
        refl,
        All-append (Ready now s) (with_rank key f first xs) (with_rank key f second xs)
            (All-map (λ x. f (key x) ≡ first) (Ready now s) (λ x e. ready x (λ q. cc)) _ a)
            (All-map (λ x. f (key x) ≡ second) (Ready now s) (λ x e. ready x (λ q. cc)) _ b),
        All-map (λ x. f (key x) ≡ last) (Cooling now s)
            (λ x e. sym (cooling-refresh now s (key x)) ∙ (rank-last (key t) now s' (key x)).0 e) _
            (with_rank-All f last xs),
        in_order-perm f xs,
      )
