-- ===== src/Prelude/Maps.antt =====
-- Go maps with string keys, as association lists. A loop over a map meets the entries in the
-- order of the list, so a theorem about every list is one about every order of iteration.
use emby_panel.Prelude.{
  ℕ, ◌+◌, ◌≡◌, refl, false, Option, none, some, List, [], ◌∷◌, String, arith, str_eq, eq_iff,
  eq_refl, inl, inr, Bool-cases, if◌then◌else◌,
}
use mathlib.Core.Path.{subst}
use mathlib.Core.Option.{some-injective}

abbrev pub Map {ℓ} : Type ℓ → Type ℓ
Map V = List (String × V)

module _ {ℓ} {V : Type ℓ} where
  -- v, ok := m[k]
  unfoldable pub lookup : String → Map V → Option V
  lookup k [] = none
  lookup k ((j, v) ∷ m) = if str_eq j k then some v else lookup k m

  -- m[k] = v
  unfoldable pub insert : String → V → Map V → Map V
  insert k v [] = (k, v) ∷ []
  insert k v ((j, w) ∷ m) = if str_eq j k then (k, v) ∷ m else (j, w) ∷ insert k v m

  -- delete(m, k)
  unfoldable pub delete : String → Map V → Map V
  delete k [] = []
  delete k ((j, w) ∷ m) = if str_eq j k then m else (j, w) ∷ delete k m

  -- A weight, added up over the entries; `size` is len(m).
  abbrev pub total : (V → ℕ) → Map V → ℕ
  total w [] = 0
  total w ((j, v) ∷ m) = w v + total w m

  abbrev pub size : Map V → ℕ
  size m = total (λ _. 1) m

  -- No key stands twice, as in every Go map.
  abbrev pub HasDistinctKeys : Map V → Type ℓ
  HasDistinctKeys [] = Unit
  HasDistinctKeys ((j, v) ∷ m) = (lookup j m ≡ none) × HasDistinctKeys m

  pub lookup-insert :
      (k j : String) (v : V) (m : Map V)
      → lookup j (insert k v m) ≡ (if str_eq k j then some v else lookup j m)
  unfolding lookup insert
  lookup-insert k j v [] = refl
  lookup-insert k j v (entry ∷ m) =
      let i = entry.0 in ground (arith, lookup-insert k j v m, eq_iff i j, eq_iff i k, eq_iff k j)

  pub lookup-insert_self : (k : String) (v : V) (m : Map V) → lookup k (insert k v m) ≡ some v
  lookup-insert_self k v m = rw (lookup-insert k k v m, eq_refl k) refl

  pub lookup-delete_ne :
      (k j : String) (m : Map V) → str_eq k j ≡ false → lookup j (delete k m) ≡ lookup j m
  unfolding lookup delete
  lookup-delete_ne k j [] h = refl
  lookup-delete_ne k j ((i, w) ∷ m) h =
      ground (arith, eq_iff k j, eq_iff i k, eq_iff i j, lookup-delete_ne k j m)

  pub lookup-delete_self :
      (k : String) (m : Map V) → HasDistinctKeys m → lookup k (delete k m) ≡ none
  unfolding lookup delete
  lookup-delete_self k [] h = refl
  lookup-delete_self k ((i, w) ∷ m) h = ground (arith, eq_iff i k, lookup-delete_self k m)

  pub delete_absent : (k : String) (m : Map V) → lookup k m ≡ none → delete k m ≡ m
  unfolding lookup delete
  delete_absent k [] h = refl
  delete_absent k ((i, w) ∷ m) h = ground (arith, delete_absent k m)

  pub delete-insert_new :
      (k : String) (v : V) (m : Map V) → lookup k m ≡ none → delete k (insert k v m) ≡ m
  unfolding lookup insert delete
  delete-insert_new k v [] h = ground (arith, eq_iff k k)
  delete-insert_new k v ((i, w) ∷ m) h = ground (arith, delete-insert_new k v m)

  pub insert-HasDistinctKeys :
      (k : String) (v : V) (m : Map V) → HasDistinctKeys m → HasDistinctKeys (insert k v m)
  unfolding lookup insert
  insert-HasDistinctKeys k v [] h = ground arith
  insert-HasDistinctKeys k v ((i, w) ∷ m) h =
      ground (arith, eq_iff i k, eq_iff k i, lookup-insert k i v m, insert-HasDistinctKeys k v m)

  pub delete-HasDistinctKeys :
      (k : String) (m : Map V) → HasDistinctKeys m → HasDistinctKeys (delete k m)
  unfolding lookup delete
  delete-HasDistinctKeys k [] h = tt
  delete-HasDistinctKeys k ((i, w) ∷ m) h =
      ground (arith, eq_iff i k, eq_iff k i, lookup-delete_ne k i m, delete-HasDistinctKeys k m)

  module _ (weight : V → ℕ) where
    pub total-insert_new :
        (k : String) (v : V) (m : Map V)
        → lookup k m ≡ none
        → total weight (insert k v m) ≡ total weight m + weight v
    unfolding lookup insert
    total-insert_new k v [] h = ground arith
    total-insert_new k v ((i, w) ∷ m) h = ground (arith, total-insert_new k v m)

    pub total-insert_old :
        (k : String) (u v : V) (m : Map V)
        → lookup k m ≡ some u
        → total weight (insert k v m) + weight u ≡ total weight m + weight v
    unfolding lookup insert
    total-insert_old k u v [] h = ground arith
    total-insert_old k u v ((i, w) ∷ m) h = ground (arith, total-insert_old k u v m)

    pub total-delete :
        (k : String) (v : V) (m : Map V)
        → lookup k m ≡ some v
        → total weight (delete k m) + weight v ≡ total weight m
    unfolding lookup delete
    total-delete k v [] h = ground arith
    total-delete k v ((i, w) ∷ m) h = ground (arith, total-delete k v m)

  -- Every value satisfies the predicate.
  abbrev pub AllValues {κ} : (V → Type κ) → Map V → Type κ
  AllValues P [] = Unit
  AllValues P ((k, v) ∷ m) = P v × AllValues P m

  pub lookup-AllValues {κ} :
      (P : V → Type κ) (k : String) (m : Map V) {v : V} → lookup k m ≡ some v → AllValues P m → P v
  unfolding lookup
  lookup-AllValues P k [] h all = ground arith
  lookup-AllValues P k ((i, w) ∷ m) h (p, all) = elim (Bool-cases (str_eq i k)) [
    | inl e ↦ subst P (some-injective w _ (rw e at h)) p
    | inr e ↦ lookup-AllValues P k m (rw e at h) all
  ]

  pub insert-AllValues {κ} :
      (P : V → Type κ) (k : String) {v : V} (m : Map V)
      → P v
      → AllValues P m
      → AllValues P (insert k v m)
  unfolding insert
  insert-AllValues P k [] p all = (p, tt)
  insert-AllValues P k ((i, w) ∷ m) p (q, all) = elim (Bool-cases (str_eq i k)) [
    | inl e ↦ rw e (p, all)
    | inr e ↦ rw e (q, insert-AllValues P k m p all)
  ]

  pub delete-AllValues {κ} :
      (P : V → Type κ) (k : String) (m : Map V) → AllValues P m → AllValues P (delete k m)
  unfolding delete
  delete-AllValues P k [] all = tt
  delete-AllValues P k ((i, w) ∷ m) (q, all) = elim (Bool-cases (str_eq i k)) [
    | inl e ↦ rw e all
    | inr e ↦ rw e (q, delete-AllValues P k m all)
  ]

  pub map-AllValues {κ μ} :
      (P : V → Type κ) (Q : V → Type μ) (m : Map V)
      → ((v : V) → P v → Q v)
      → AllValues P m
      → AllValues Q m
  map-AllValues P Q [] f all = tt
  map-AllValues P Q ((i, w) ∷ m) f (p, all) = (f w p, map-AllValues P Q m f all)
