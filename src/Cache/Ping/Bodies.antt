-- ===== src/Cache/Ping/Bodies.antt =====
-- legacy_ping_cache.go: pingCacheResponseHeadersSafe and prepareResponse, which reads an answer
-- before the client does. What headers say is given as facts; the freshness and the headers to
-- replay are parameters.
use mathlib.Core.Path.{subst}
use emby_panel.Prelude.{
  sym, ℕ, ◌∙◌, zero, ap, suc, ◌≤◌, ◌≡◌, refl, Bool, true, false, not, ◌&&◌, ◌||◌, ◌==◌, leb, ltb,
  Option, none, some, List, [], ◌∷◌, ◌++◌, length, take, drop, length-take, min, arith, Bool-cases,
  Option-cases, inl, inr, if◌then◌else◌,
}

abbrev pub ping_cache_max_body_bytes : ℕ
ping_cache_max_body_bytes = 65536

pub record Headers : Type 0 where
  pub status : ℕ
  pub set_cookie : Bool
  pub content_range : Bool
  pub trailer : Bool
  pub vary_safe : Bool
  pub directives_valid : Bool
  pub is_private : Bool
  pub no_store : Bool
  pub no_cache : Bool
  pub pragma_no_cache : Bool

-- Reading `body` ends with `read_error`, or at its end. `content_length` is none for -1,
-- `expires_at` is none when the answer is not fresh.
pub record Answer : Type 0 where
  pub headers : Headers
  pub content_length : Option ℕ
  pub body : List ℕ
  pub read_error : Option ℕ
  pub close_fails : Bool
  pub expires_at : Option ℕ
  pub replayable : Bool

-- What a client reads, and the entry to publish: its body and when it expires.
pub record Prepared : Type 0 where
  pub entry : Option (List ℕ × ℕ)
  pub bytes : List ℕ
  pub error : Option ℕ

unfoldable pub response_headers_safe : Bool → Answer → Bool
response_headers_safe is_head a =
    let h = a.headers in
    not (not (h.status == 200) || h.set_cookie || h.content_range || h.trailer || not h.vary_safe)
    && not (not h.directives_valid || h.is_private || h.no_store || h.no_cache || h.pragma_no_cache)
    && (is_head
        || (elim a.content_length [ none ↦ true | some n ↦ leb n ping_cache_max_body_bytes ]))

-- The length that was announced is that of the body, if one was.
unfoldable pub length_agrees : Option ℕ → ℕ → Bool
length_agrees none n = true
length_agrees (some m) n = m == n

-- The checks on an answer whose body was read to its end.
unfoldable pub entry_of : Bool → Answer → List ℕ → Option (List ℕ × ℕ)
unfolding length_agrees
entry_of is_head a body =
    let whole =
      if is_head then length body == 0 else length_agrees a.content_length (length body) in
    if whole && not a.close_fails && a.replayable
    then (elim a.expires_at [ none ↦ none | some t ↦ some (body, t) ])
    else none

-- io.ReadAll of a reader that is limited to one byte more than the most: an error that stands
-- behind those is not met.
unfoldable pub limited_error : Answer → Option ℕ
limited_error a = if ltb ping_cache_max_body_bytes (length a.body) then none else a.read_error

unfoldable pub prepare_response : Bool → Answer → Prepared
unfolding response_headers_safe entry_of limited_error
prepare_response is_head a =
    let most = ping_cache_max_body_bytes in
    let read = take (suc most) a.body in
    if response_headers_safe is_head a
    then (elim (limited_error a) [
      | some e ↦ record { entry = none; bytes = read; error = some e }
      | none ↦
          if ltb most (length read)
          then record { entry = none; bytes = read ++ drop (suc most) a.body; error = a.read_error }
          else record { entry = entry_of is_head a read; bytes = read; error = none }
    ])
    else record { entry = none; bytes = a.body; error = a.read_error }

take-drop : (n : ℕ) (xs : List ℕ) → take n xs ++ drop n xs ≡ xs
take-drop zero xs = refl
take-drop (suc n) [] = refl
take-drop (suc n) (x ∷ xs) = ap (λ r. x ∷ r) (take-drop n xs)

take_all : (n : ℕ) (xs : List ℕ) → length xs ≤ n → take n xs ≡ xs
take_all zero [] h = refl
take_all zero (x ∷ xs) h = ground arith
take_all (suc n) [] h = refl
take_all (suc n) (x ∷ xs) h = ap (λ r. x ∷ r) (take_all n xs (omega (arith, h)))

-- An entry is the whole answer: its body was read to the end without an error, is not longer
-- than the limit, and has the length that was announced for a GET.
pub IsWhole : Bool → Answer → Option (List ℕ × ℕ) → Type 0
IsWhole is_head a none = Unit
IsWhole is_head a (some (body, t)) =
    (body ≡ a.body)
    × (a.read_error ≡ none)
    × (length a.body ≤ ping_cache_max_body_bytes)
    × (a.close_fails ≡ false)
    × ((is_head || length_agrees a.content_length (length a.body)) ≡ true)

entry_of-IsWhole :
    (is_head : Bool) (a : Answer)
    → a.read_error ≡ none
    → length a.body ≤ ping_cache_max_body_bytes
    → IsWhole is_head a (entry_of is_head a a.body)
unfolding IsWhole entry_of length_agrees
entry_of-IsWhole is_head a whole small = ground arith

not_ltb : (a b : ℕ) → ltb a b ≡ false → b ≤ a
not_ltb a b h = ground arith

-- One item more than the most is enough to see whether there are too many.
one_more_shows :
    (most total seen : ℕ) → seen ≡ min (suc most) total → ltb most seen ≡ ltb most total
one_more_shows most total seen h = ground arith

-- The client reads what the upstream sent, with the error that it ended with if there was one,
-- whether the answer is cached or not; and what is cached is whole.
pub prepare_response-IsWhole :
    (is_head : Bool) (a : Answer)
    → ((prepare_response is_head a).bytes ≡ a.body)
      × ((prepare_response is_head a).error ≡ a.read_error)
      × IsWhole is_head a (prepare_response is_head a).entry
unfolding prepare_response IsWhole limited_error
prepare_response-IsWhole is_head a =
    let most = ping_cache_max_body_bytes in
    let read = take (suc most) a.body in
    let shows = one_more_shows most (length a.body) (length read) (length-take (suc most) a.body) in
    elim (Bool-cases (response_headers_safe is_head a)) [
      | inr unsafe ↦ rw (prepare_response, unsafe) (refl, refl, tt)
      | inl safe ↦ elim (Bool-cases (ltb most (length a.body))) [
        | inl big ↦
            let over : ltb most (length read) ≡ true = shows ∙ big in
            rw (prepare_response, safe, limited_error, big, over)
              (take-drop (suc most) a.body, refl, tt)
        | inr small ↦
            let fits = not_ltb most (length a.body) small in
            let same = take_all (suc most) a.body (omega (arith, fits)) in
            elim (Option-cases a.read_error) [
              | inr (e, failed) ↦
                  rw (prepare_response, safe, limited_error, small, failed) (same, refl, tt)
              | inl fine ↦
                  let over : ltb most (length read) ≡ false = shows ∙ small in
                  let quiet : limited_error a ≡ none = rw (limited_error, small) fine in
                  rw (prepare_response, safe, quiet, over)
                    (
                      same,
                      sym fine,
                      subst (λ x. IsWhole is_head a (entry_of is_head a x)) (sym same)
                          (entry_of-IsWhole is_head a fine fits),
                    )
            ]
      ]
    ]
