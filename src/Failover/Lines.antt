-- ===== src/Failover/Lines.antt =====
-- failover_lines.go: the lines of a site as they are edited and stored. Trimming, the count of
-- runes, the numbered default name (fmt.Sprintf) and the normalisation of a URL are parameters.
mod Examples
use mathlib.Core.Path.{subst}
use emby_panel.Prelude.{
  ℕ, suc, ◌+◌, ◌-◌, ◌≡◌, refl, ap, ◌∙◌, sym, Bool, true, false, Option, none, some, List, [], ◌∷◌,
  ◌++◌, String, arith, All, ◌&&◌, not, length, length-append, leb, ltb, str_eq, eq_iff, Bool-cases,
  inl, inr, if◌then◌else◌,
}
use emby_panel.Failover.{max_failover_targets}
use emby_panel.Failover.Targets.{
  TargetsError, invalid_target, too_many, name_too_long, url_required, Parsed, ok, err, Normalized,
  valid, invalid, parse_failover_targets,
}

pub record FailoverLine : Type 0 where
  pub name : String
  pub url : String
  pub enabled : Bool

infixl 5 ◌>>=◌
abbrev ◌>>=◌ : {E A B : Type 0} → Parsed E A → (A → Parsed E B) → Parsed E B
ok a >>= f = f a
err e >>= f = err e

-- The text operations of the Go library.
pub record Texts : Type 0 where
  pub trim : String → String
  pub rune_count : String → ℕ
  pub line_name : ℕ → String

-- len(xs) == 0
is_empty : {A : Type 0} → List A → Bool
is_empty [] = true
is_empty (_ ∷ _) = false

-- The trimmed name of a line, or its default.
pub line_name_of : Texts → ℕ → FailoverLine → String
line_name_of texts i line =
    let trimmed = texts.trim line.name in
    if str_eq trimmed "" then texts.line_name (i + 2) else trimmed

module _ {T E : Type 0} (texts : Texts) (key : T → String)
    (normalize : String → Normalized T E) where
  open texts use {trim, rune_count, line_name}

  -- The empty name of a primary line is replaced by its default, given here as `primary_name`.
  pub normalize_primary_line_name : String → String → Parsed E String
  normalize_primary_line_name primary_name name =
      let trimmed = trim name in
      let named = if str_eq trimmed "" then primary_name else trimmed in
      if ltb 100 (rune_count named) then err name_too_long else ok named

  -- The lines of a site that was stored before lines had names.
  pub legacy_lines : ℕ → List String → List FailoverLine
  legacy_lines i [] = []
  legacy_lines i (target ∷ legacy) =
      record { name = line_name (i + 2); url = target; enabled = true }
      ∷ legacy_lines (i + 1) legacy

  check_url : FailoverLine → Normalized T E → Parsed E FailoverLine
  check_url line (valid t) = ok line
  check_url line (invalid e) = err (invalid_target e)

  pub normalize_line : ℕ → FailoverLine → Parsed E FailoverLine
  unfolding check_url
  normalize_line i line =
      let name = line_name_of texts i line in
      let url = trim line.url in
      if ltb 100 (rune_count name)
      then err name_too_long
      else if str_eq url ""
      then err url_required
      else check_url (record { name = name; url = url; enabled = line.enabled }) (normalize url)

  -- for i, line := range lines
  pub normalize_lines : ℕ → List FailoverLine → Parsed E (List FailoverLine)
  normalize_lines i [] = ok []
  normalize_lines i (line ∷ lines) = do
    line' ← normalize_line i line
    lines' ← normalize_lines (i + 1) lines
    ok (line' ∷ lines')

  pub enabled_targets : List FailoverLine → List String
  enabled_targets [] = []
  enabled_targets (line ∷ lines) =
      let rest = enabled_targets lines in if line.enabled then line.url ∷ rest else rest

  check_targets : List FailoverLine → Parsed E (List T) → Parsed E (List FailoverLine × List String)
  check_targets lines (ok _) = ok (lines, enabled_targets lines)
  check_targets lines (err e) = err e

  normalize_chosen : String → List FailoverLine → Parsed E (List FailoverLine × List String)
  unfolding check_targets
  normalize_chosen primary lines =
      if ltb (max_failover_targets - 1) (length lines) then err too_many else do
        normalized ← normalize_lines 0 lines
        check_targets normalized
            (parse_failover_targets key normalize primary (enabled_targets normalized))

  pub normalize_failover_lines :
      String → List FailoverLine → List String → Parsed E (List FailoverLine × List String)
  normalize_failover_lines primary lines legacy =
      normalize_chosen primary
        (if is_empty lines && not (is_empty legacy) then legacy_lines 0 legacy else lines)

-- What the code relies on: a trimmed text stays as it is, and so does a default name, which has
-- no space at its ends and is not empty.
pub record IsTrimming (texts : Texts) : Type 0 where
  pub trim_trim : (s : String) → texts.trim (texts.trim s) ≡ texts.trim s
  pub trim-line_name : (i : ℕ) → texts.trim (texts.line_name i) ≡ texts.line_name i
  pub line_name_named : (i : ℕ) → str_eq (texts.line_name i) "" ≡ false

line_name_of_trimmed :
    (texts : Texts) (i : ℕ) (line : FailoverLine)
    → IsTrimming texts
    → (texts.trim (line_name_of texts i line) ≡ line_name_of texts i line)
      × (str_eq (line_name_of texts i line) "" ≡ false)
unfolding line_name_of
line_name_of_trimmed texts i line trimming = elim (Bool-cases (str_eq (texts.trim line.name) "")) [
  | inl empty ↦ rw empty (trimming.trim-line_name (i + 2), trimming.line_name_named (i + 2))
  | inr named ↦ rw named (trimming.trim_trim line.name, named)
]

ok_injective : {E A : Type 0} {a b : A} → ◌≡◌ {A = Parsed E A} (ok a) (ok b) → a ≡ b
ok_injective h = ground arith

-- Where a chain succeeds, its first part did.
>>=-ok :
    {E A B : Type 0} (first : Parsed E A) (rest : A → Parsed E B) {result : B}
    → (first >>= rest) ≡ ok result
    → (given : A) × (first ≡ ok given) × (rest given ≡ ok result)
>>=-ok (ok given) rest succeeds = (given, refl, succeeds)
>>=-ok (err _) rest succeeds = absurd (ground arith)

module _ {T E : Type 0} (texts : Texts) (key : T → String)
    (normalize : String → Normalized T E) where
  -- A line as the code stores it.
  pub record IsNormal (line : FailoverLine) : Type 0 where
    pub name_trimmed : texts.trim line.name ≡ line.name
    pub named : str_eq line.name "" ≡ false
    pub short : ltb 100 (texts.rune_count line.name) ≡ false
    pub url_trimmed : texts.trim line.url ≡ line.url
    pub url_given : str_eq line.url "" ≡ false
    pub url_valid : (t : T) × (normalize line.url ≡ valid t)

  check_url_ok :
      (line line' : FailoverLine) (n : Normalized T E)
      → check_url texts key normalize line n ≡ ok line'
      → (line ≡ line') × ((t : T) × (n ≡ valid t))
  unfolding check_url
  check_url_ok line line' (valid t) h = (ground arith, (t, refl))
  check_url_ok line line' (invalid e) h = absurd (ground arith)

  normalize_line-IsNormal :
      (i : ℕ) (line line' : FailoverLine)
      → IsTrimming texts
      → normalize_line texts key normalize i line ≡ ok line'
      → IsNormal line'
  unfolding normalize_line
  normalize_line-IsNormal i line line' trimming h =
      elim (Bool-cases (ltb 100 (texts.rune_count (line_name_of texts i line)))) [
        | inl long ↦ absurd (ground arith)
        | inr short ↦ elim (Bool-cases (str_eq (texts.trim line.url) "")) [
          | inl no_url ↦ absurd (ground arith)
          | inr url ↦
              let stored : FailoverLine = record {
                name = line_name_of texts i line;
                url = texts.trim line.url;
                enabled = line.enabled;
              } in
              let (same, known) =
                check_url_ok stored line' (normalize (texts.trim line.url)) (ground arith) in
              let (trimmed, named) = line_name_of_trimmed texts i line trimming in
              subst IsNormal same (record {
                name_trimmed = trimmed;
                named = named;
                short = short;
                url_trimmed = trimming.trim_trim line.url;
                url_given = url;
                url_valid = known;
              })
        ]
      ]

  IsNormal-normalize_line :
      (i : ℕ) (line : FailoverLine)
      → IsNormal line
      → normalize_line texts key normalize i line ≡ ok line
  unfolding normalize_line check_url
  IsNormal-normalize_line i line v =
      let same : line_name_of texts i line ≡ line.name =
        unfold line_name_of in rw (v.name_trimmed, v.named) refl in
      simp (same, v.short, v.url_trimmed, v.url_given, v.url_valid.1)

  normalize_lines-IsNormal :
      (i : ℕ) (lines lines' : List FailoverLine)
      → IsTrimming texts
      → normalize_lines texts key normalize i lines ≡ ok lines'
      → All IsNormal lines' × (length lines' ≡ length lines)
  unfolding normalize_lines
  normalize_lines-IsNormal i [] lines' trimming h =
      subst (λ (l : List FailoverLine). All IsNormal l × (length l ≡ 0)) (ok_injective h) (tt, refl)
  normalize_lines-IsNormal i (line ∷ lines) lines' trimming h =
      let (line1, normal, h1) = >>=-ok (normalize_line texts key normalize i line) _ h in
      let (rest, normals, h2) = >>=-ok (normalize_lines texts key normalize (i + 1) lines) _ h1 in
      let (all, same) = normalize_lines-IsNormal (i + 1) lines rest trimming normals in
      subst (λ (l : List FailoverLine). All IsNormal l × (length l ≡ suc (length lines)))
        (ok_injective h2) ((normalize_line-IsNormal i line line1 trimming normal, all), ap suc same)

  IsNormal-normalize_lines :
      (i : ℕ) (lines : List FailoverLine)
      → All IsNormal lines
      → normalize_lines texts key normalize i lines ≡ ok lines
  unfolding normalize_lines
  IsNormal-normalize_lines i [] v = refl
  IsNormal-normalize_lines i (line ∷ lines) v =
      rw (IsNormal-normalize_line i line v.0, IsNormal-normalize_lines (i + 1) lines v.1) refl

  check_targets_ok :
      (lines : List FailoverLine) (p : Parsed E (List T)) {r : List FailoverLine × List String}
      → check_targets texts key normalize lines p ≡ ok r
      → r ≡ (lines, enabled_targets texts key normalize lines)
  unfolding check_targets
  check_targets_ok lines (ok ts) h = sym (ok_injective h)
  check_targets_ok lines (err e) h = absurd (ground arith)

  normalize_chosen_again :
      (primary : String) (lines : List FailoverLine) (r : List FailoverLine × List String)
      → IsTrimming texts
      → normalize_chosen texts key normalize primary lines ≡ ok r
      → (normalize_chosen texts key normalize primary r.0 ≡ ok r)
        × (r.1 ≡ enabled_targets texts key normalize r.0)
  unfolding normalize_chosen
  normalize_chosen_again primary lines r trimming h = elim (Bool-cases (ltb 7 (length lines))) [
    | inl long ↦ absurd (ground arith)
    | inr short ↦
        let (normalized, normals, h1) =
          >>=-ok (normalize_lines texts key normalize 0 lines) _ (rw short at h) in
        let kept = check_targets_ok normalized _ h1 in
        let (all, same) = normalize_lines-IsNormal 0 lines normalized trimming normals in
        subst
          (λ (q : List FailoverLine × List String).
            (normalize_chosen texts key normalize primary q.0 ≡ ok q)
            × (q.1 ≡ enabled_targets texts key normalize q.0))
          (sym kept)
          (rw (same, short, IsNormal-normalize_lines 0 normalized all) (h1 ∙ ap ok kept), refl)
  ]

  chosen_stored :
      (lines : List FailoverLine)
      → (if is_empty lines && not (is_empty (enabled_targets texts key normalize lines))
          then legacy_lines texts key normalize 0 (enabled_targets texts key normalize lines)
          else lines)
        ≡ lines
  unfolding is_empty enabled_targets
  chosen_stored [] = refl
  chosen_stored (line ∷ lines) = refl

  -- What is stored for a site loads again as it is: lines and targets that normalisation accepted
  -- are accepted unchanged, names, URLs, order and the list of enabled targets included.
  pub normalize_failover_lines_stable :
      (primary : String) (lines lines' : List FailoverLine) (legacy targets : List String)
      → IsTrimming texts
      → normalize_failover_lines texts key normalize primary lines legacy ≡ ok (lines', targets)
      → normalize_failover_lines texts key normalize primary lines' targets ≡ ok (lines', targets)
  unfolding normalize_failover_lines
  normalize_failover_lines_stable primary lines lines' legacy targets trimming h =
      let (again, same) = normalize_chosen_again primary _ (lines', targets) trimming h in
      rw (same, chosen_stored lines') (rw same at again)
