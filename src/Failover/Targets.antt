-- ===== src/Failover/Targets.antt =====
-- parseFailoverTargets: which backup lines a site may have. How a URL is
-- normalised (normalizeTargetURL, on net/url) is a parameter: it gives a target, or an error.
use mathlib.Core.List.{append-nil, append_assoc}
use emby_panel.Prelude.{
  ◌⊎◌, ◌↔◌, ap, sym, ◌∙◌, ◌-◌, ◌≤◌, ◌≡◌, refl, Bool, true, false, List, [], ◌∷◌, ◌++◌, String,
  arith, length, ltb, str_eq, Bool-cases, inl, inr, if◌then◌else◌,
}
use emby_panel.Failover.{max_failover_targets}

pub data TargetsError (E : Type 0) : Type 0 where
  invalid_target : E → TargetsError E
  too_many repeated name_too_long url_required : TargetsError E

pub data Parsed (E A : Type 0) : Type 0 where
  ok : A → Parsed E A
  err : TargetsError E → Parsed E A

pub data Normalized (T E : Type 0) : Type 0 where
  valid : T → Normalized T E
  invalid : E → Normalized T E

-- seen[key]
unfoldable pub contains : String → List String → Bool
contains k [] = false
contains k (j ∷ js) = let rest = contains k js in if str_eq j k then true else rest

module _ {T E : Type 0} (key : T → String) (normalize : String → Normalized T E) where
  -- for _, value := range raw
  unfoldable pub parse_backups : List String → List String → List T → Parsed E (List T)
  unfolding contains
  parse_backups [] seen targets = ok targets
  parse_backups (value ∷ raw) seen targets = elim (normalize value) [
    | invalid e ↦ err (invalid_target e)
    | valid t ↦
        if contains (key t) seen
        then err repeated
        else parse_backups raw (key t ∷ seen) (targets ++ t ∷ [])
  ]

  unfoldable pub parse_failover_targets : String → List String → Parsed E (List T)
  parse_failover_targets primary raw = elim (normalize primary) [
    | invalid e ↦ err (invalid_target e)
    | valid t ↦
        if ltb (max_failover_targets - 1) (length raw)
        then err too_many
        else parse_backups raw (key t ∷ []) (t ∷ [])
  ]

  -- The targets are those of the texts, in order, and no key is among those seen before.
  abbrev pub Accepted : List String → List String → List T → Type 0
  Accepted [] seen [] = Unit
  Accepted (value ∷ raw) seen (t ∷ ts) =
      (normalize value ≡ valid t) × (contains (key t) seen ≡ false) × Accepted raw (key t ∷ seen) ts
  Accepted _ seen _ = ⊥

  Normalized-cases : (n : Normalized T E) → ((t : T) × (n ≡ valid t)) ⊎ ((e : E) × (n ≡ invalid e))
  Normalized-cases (valid t) = inl (t, refl)
  Normalized-cases (invalid e) = inr (e, refl)

  parse_backups_sound :
      (raw seen : List String) (targets ts : List T)
      → parse_backups raw seen targets ≡ ok ts
      → (added : List T) × (ts ≡ targets ++ added) × Accepted raw seen added
  unfolding parse_backups
  parse_backups_sound [] seen targets ts h = ([], ground (arith, append-nil targets), tt)
  parse_backups_sound (value ∷ raw) seen targets ts h = elim (Normalized-cases (normalize value)) [
    | inr (e, bad) ↦ absurd (ground arith)
    | inl (t, good) ↦ elim (Bool-cases (contains (key t) seen)) [
      | inl twice ↦ absurd (ground arith)
      | inr fresh ↦
          let (added, eq, accepted) =
            parse_backups_sound raw (key t ∷ seen) (targets ++ t ∷ []) ts (ground arith) in
          (t ∷ added, eq ∙ append_assoc targets (t ∷ []) added, (good, fresh, accepted))
    ]
  ]

  parse_backups_complete :
      (raw seen : List String) (targets added : List T)
      → Accepted raw seen added
      → parse_backups raw seen targets ≡ ok (targets ++ added)
  unfolding parse_backups
  parse_backups_complete [] seen targets [] h = ap ok (sym (append-nil targets))
  parse_backups_complete [] seen targets (t ∷ added) h = absurd h
  parse_backups_complete (value ∷ raw) seen targets [] h = absurd h
  parse_backups_complete (value ∷ raw) seen targets (t ∷ added) h =
      rw (h.0, parse_backups, h.1)
        (parse_backups_complete raw (key t ∷ seen) (targets ++ t ∷ []) added h.2
          ∙ ap ok (append_assoc targets (t ∷ []) added))

  -- A list of lines is accepted exactly if the primary and all of at most 7 backups are valid and
  -- no two of these have the same key; the targets are then the primary and the backups in order.
  pub parse_failover_targets_exact :
      (primary : String) (raw : List String) (ts : List T)
      → (parse_failover_targets primary raw ≡ ok ts) ↔ (
          (t : T) × (added : List T) × (ts ≡ t ∷ added)
          × (normalize primary ≡ valid t)
          × (length raw ≤ 7)
          × Accepted raw (key t ∷ []) added)
  unfolding parse_failover_targets
  parse_failover_targets_exact primary raw ts = (
    (λ h. elim (Normalized-cases (normalize primary)) [
      | inr (e, bad) ↦ absurd (ground arith)
      | inl (t, good) ↦
          let (added, eq, accepted) =
            parse_backups_sound raw (key t ∷ []) (t ∷ []) ts (ground arith) in
          (t, added, eq, good, ground arith, accepted)
    ]),
    (λ h.
        rw (h.3, parse_failover_targets, ltb_false h.4)
          (parse_backups_complete raw (key h.0 ∷ []) (h.0 ∷ []) h.1 h.5 ∙ ap ok (sym h.2))),
  )
    where
      ltb_false : length raw ≤ 7 → ltb 7 (length raw) ≡ false
      ltb_false le = ground arith
