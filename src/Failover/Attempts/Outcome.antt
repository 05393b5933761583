-- ===== src/Failover/Attempts/Outcome.antt =====
-- Which line's answer a client gets.
use native.Mathlib.Nat.{add-zero}
use emby_panel.Prelude.{
  ℕ, suc, ◌+◌, ◌≡◌, refl, ap, ◌∙◌, Bool, true, false, Option, none, some, List, [], ◌∷◌, ◌++◌,
  String, not, arith, All, length, leb, ltb, str_eq, ◌&&◌, if◌then◌else◌, Bool-cases, inl, inr,
}
use emby_panel.Failover.{FailoverState, mark_failure, ordered}
use emby_panel.Failover.Attempts.{
  Answer, response, transport_error, Result, responded, failed, is_retryable_upstream_status,
  is_success, mark_if_success, attempt, is_more, at_end, attempts, round_trip,
}

module _ {T E : Type 0} (key : T → String) (base : T → Answer E) (clone_error : T → Option E)
    (clock : ℕ → ℕ) where
  -- The line may be left behind: its error is not the client's, or its status is retryable.
  abbrev is_passed_over : Answer E → Bool
  is_passed_over (response status) = is_retryable_upstream_status status
  is_passed_over (transport_error e canceled) = not canceled

  abbrev pub Passed : T → Type 0
  Passed t = (clone_error t ≡ none) × (is_passed_over (base t) ≡ true)

  -- The state after the failures of the lines that were left behind.
  abbrev pub failures : ℕ → List T → FailoverState → FailoverState
  failures index [] s = s
  failures index (t ∷ ts) s = failures (suc index) ts (mark_failure key t (clock index) s)

  -- With its request cloned, or needing no clone, a line is attempted.
  attempts-cons :
      (active : String) (index : ℕ) (t : T) (ts : List T) (s : FailoverState) (last_err : Option E)
      → clone_error t ≡ none
      → attempts key base clone_error clock active index (t ∷ ts) s last_err
        ≡ attempt key base clone_error clock
            (is_more ts)
            t
            (clock index)
            (base t)
            s
            (attempts key base clone_error clock active (suc index) ts)
            last_err
  unfolding attempts
  attempts-cons active index t ts s last_err c = ground (arith, c)

  attempt-pass :
      (t : T) (now : ℕ) (s : FailoverState)
      (rest : FailoverState → Option E → FailoverState × Result T E) (last_err : Option E)
      → (a : Answer E) → is_passed_over a ≡ true
      → (e : Option E) × (attempt key base clone_error clock true t now a s rest last_err
          ≡ rest (mark_failure key t now s) e)
  unfolding attempt
  attempt-pass t now s rest last_err (response status) p = (last_err, rw p)
  attempt-pass t now s rest last_err (transport_error e false) p = (some e, refl)
  attempt-pass t now s rest last_err (transport_error e true) p = absurd (ground arith)

  is_more-append : (before after : List T) (t : T) → is_more (before ++ t ∷ after) ≡ true
  unfolding is_more
  is_more-append [] after t = refl
  is_more-append (u ∷ before) after t = refl

  attempts-first_answer :
      (active : String) (index : ℕ) (before after : List T) (t : T) (status : ℕ) (s : FailoverState)
      (last_err : Option E)
      → All Passed before
      → clone_error t ≡ none
      → base t ≡ response status
      → is_retryable_upstream_status status ≡ false
      → attempts key base clone_error clock active index (before ++ t ∷ after) s last_err ≡ (
        mark_if_success key t (clock (index + length before)) status (failures index before s),
        responded t status,
      )
  unfolding attempt
  attempts-first_answer active index [] after t status s last_err p c b r =
      rw (attempts-cons active index t after s last_err c, b, r, add-zero) refl
  attempts-first_answer active index (u ∷ before) after t status s last_err p c b r =
      let (e, passed) =
        attempt-pass u (clock index) s
          (attempts key base clone_error clock active (suc index) (before ++ t ∷ after)) last_err
          (base u) p.0.1 in
      rw
        (
          attempts-cons active index u (before ++ t ∷ after) s last_err p.0.0,
          is_more-append before after t,
        )
        (passed
          ∙ attempts-first_answer active (suc index) before after t status
              (mark_failure key u (clock index) s) e p.1 c b r
          ∙ ap
              (λ (k : ℕ). (
                mark_if_success key t (clock k) status (failures index (u ∷ before) s),
                responded t status,
              ))
              (omega arith))

  -- What the client gets if no line is left to go on to.
  abbrev pub last_result : T → Answer E → Result T E
  last_result t (response status) = responded t status
  last_result t (transport_error e canceled) = failed e

  is_success_retryable :
      (status : ℕ) → is_retryable_upstream_status status ≡ true → is_success status ≡ false
  unfolding is_retryable_upstream_status is_success
  is_success_retryable status h = ground arith

  attempt_last :
      (active : String) (index : ℕ) (t : T) (s : FailoverState) (last_err : Option E) (a : Answer E)
      → is_passed_over a ≡ true
      → attempt key base clone_error clock false t
          (clock index)
          a
          s
          (attempts key base clone_error clock active (suc index) [])
          last_err
        ≡ (mark_failure key t (clock index) s, last_result t a)
  unfolding attempt attempts at_end mark_if_success
  attempt_last active index t s last_err (response status) p =
      rw (p, is_success_retryable status p) refl
  attempt_last active index t s last_err (transport_error e false) p = refl
  attempt_last active index t s last_err (transport_error e true) p = absurd (ground arith)

  attempts-left_behind :
      (active : String) (index : ℕ) (before : List T) (t : T) (s : FailoverState)
      (last_err : Option E)
      → All Passed before
      → Passed t
      → attempts key base clone_error clock active index (before ++ t ∷ []) s last_err
        ≡ (failures index (before ++ t ∷ []) s, last_result t (base t))
  unfolding is_more
  attempts-left_behind active index [] t s last_err p q =
      attempts-cons active index t [] s last_err q.0
      ∙ attempt_last active index t s last_err (base t) q.1
  attempts-left_behind active index (u ∷ before) t s last_err p q =
      let rest = attempts key base clone_error clock active (suc index) (before ++ t ∷ []) in
      let (e, passed) = attempt-pass u (clock index) s rest last_err (base u) p.0.1 in
      rw
        (
          attempts-cons active index u (before ++ t ∷ []) s last_err p.0.0,
          is_more-append before [] t,
        )
        (passed
          ∙ attempts-left_behind active (suc index) before t (mark_failure key u (clock index) s) e
              p.1 q)

  -- A line that is left behind at `now` cools down for the duration of a failure, the next probe
  -- of the primary waits as long, and a preference for the line ends. A line without a key leaves
  -- no trace.
  abbrev pub left_at : ℕ → T → FailoverState → FailoverState
  left_at now t s = if str_eq (key t) "" then s else record {
    preferred = if str_eq s.preferred (key t) then "" else s.preferred;
    preferred_until = if str_eq s.preferred (key t) then 0 else s.preferred_until;
    failed_until = λ j. if str_eq (key t) j then now + 30000000000 else s.failed_until j;
    primary_probe_at = now + 30000000000;
  }

  -- Lines that are left behind one after another, each at the clock's reading for its attempt.
  abbrev pub all_left : ℕ → List T → FailoverState → FailoverState
  all_left index [] s = s
  all_left index (t ∷ ts) s = all_left (suc index) ts (left_at (clock index) t s)

  -- A line that answers with a status from 200 to 399 is preferred for its lifetime, does not cool
  -- down, and the primary may be probed at once; any other status changes nothing.
  abbrev pub answered_at : ℕ → T → ℕ → FailoverState → FailoverState
  answered_at now t status s =
      if leb 200 status && ltb status 400 && not (str_eq (key t) "")
      then record {
        preferred = key t;
        preferred_until = now + 300000000000;
        failed_until = λ j. if str_eq (key t) j then 0 else s.failed_until j;
        primary_probe_at = 0;
      }
      else s

  mark_failure-left_at :
      (now : ℕ) (t : T) (s : FailoverState) → mark_failure key t now s ≡ left_at now t s
  unfolding mark_failure emby_panel.Failover.mark_failure_key emby_panel.Failover.set_key
  mark_failure-left_at now t s = elim (Bool-cases (str_eq (key t) "")) [
    | inl e ↦ rw e refl
    | inr e ↦ elim (Bool-cases (str_eq s.preferred (key t))) [
      | inl p ↦ rw (e, p) refl
      | inr p ↦ rw (e, p) refl
    ]
  ]

  failures-all_left :
      (index : ℕ) (ts : List T) (s : FailoverState) → failures index ts s ≡ all_left index ts s
  failures-all_left index [] s = refl
  failures-all_left index (t ∷ ts) s =
      failures-all_left (suc index) ts (mark_failure key t (clock index) s)
      ∙ ap (all_left (suc index) ts) (mark_failure-left_at (clock index) t s)

  mark_if_success-answered_at :
      (now : ℕ) (t : T) (status : ℕ) (s : FailoverState)
      → mark_if_success key t now status s ≡ answered_at now t status s
  unfolding mark_if_success is_success emby_panel.Failover.mark_success
      emby_panel.Failover.mark_success_key emby_panel.Failover.set_key
  mark_if_success-answered_at now t status s = elim (Bool-cases (str_eq (key t) "")) [
    | inl e ↦ elim (Bool-cases (leb 200 status)) [
      | inl l ↦ elim (Bool-cases (ltb status 400)) [
        | inl u ↦ rw (e, l, u) refl
        | inr u ↦ rw (e, l, u) refl
      ]
      | inr l ↦ rw (e, l) refl
    ]
    | inr e ↦ elim (Bool-cases (leb 200 status)) [
      | inl l ↦ elim (Bool-cases (ltb status 400)) [
        | inl u ↦ rw (e, l, u) refl
        | inr u ↦ rw (e, l, u) refl
      ]
      | inr l ↦ rw (e, l) refl
    ]
  ]

  -- The client gets the answer of the first line, in the order that ordered gives, whose answer is
  -- no reason to go on (a line is left for a transport error that is not the client's doing, or
  -- for a status 500, 502, 503 or 504). The lines before it, and no others, cool down for 30
  -- seconds from the time of their attempt, and that line is preferred for five minutes for a
  -- status from 200 to 399.
  pub round_trip_first_answer :
      (active : String) (targets before after : List T) (t : T) (status now : ℕ) (s : FailoverState)
      → (ordered key targets now s).1 ≡ before ++ t ∷ after
      → All Passed before
      → clone_error t ≡ none
      → base t ≡ response status
      → is_retryable_upstream_status status ≡ false
      → round_trip key base clone_error clock active targets now s ≡ (
        answered_at
            (clock (length before))
            t
            status
            (all_left 0 before (ordered key targets now s).0),
        responded t status,
      )
  unfolding round_trip
  round_trip_first_answer active targets before after t status now s order p c b r =
      let s' = (ordered key targets now s).0 in
      rw order (
        attempts-first_answer active 0 before after t status s' none p c b r
        ∙ ap (λ (s1 : FailoverState). (s1, responded t status))
            (mark_if_success-answered_at (clock (0 + length before)) t status
              (failures 0 before s'))
        ∙ ap
            (λ (s1 : FailoverState).
              (answered_at (clock (0 + length before)) t status s1, responded t status))
            (failures-all_left 0 before s')
        ∙ ap
            (λ (k : ℕ). (answered_at (clock k) t status (all_left 0 before s'), responded t status))
            (omega arith))

  -- If every line is left behind, the client gets the last one's status or error, and all of them
  -- are marked as failed.
  pub round_trip_no_answer :
      (active : String) (targets before : List T) (t : T) (now : ℕ) (s : FailoverState)
      → (ordered key targets now s).1 ≡ before ++ t ∷ []
      → All Passed before
      → Passed t
      → round_trip key base clone_error clock active targets now s
        ≡ (failures 0 (before ++ t ∷ []) (ordered key targets now s).0, last_result t (base t))
  unfolding round_trip
  round_trip_no_answer active targets before t now s order p q =
      rw order (attempts-left_behind active 0 before t (ordered key targets now s).0 none p q)
