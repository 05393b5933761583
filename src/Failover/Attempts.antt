-- ===== src/Failover/Attempts.antt =====
-- failoverTransport.RoundTrip for an eligible request: the loop over the lines of its failover
-- plan. The transport below, the cloning of the request and the clock are parameters.
mod Examples
pub mod Outcome
use emby_panel.Prelude.{
  ℕ, suc, ◌+◌, ◌==◌, Bool, true, false, not, ◌&&◌, ◌||◌, Option, none, some, List, [], ◌∷◌, String,
  leb, ltb, str_eq, if◌then◌else◌,
}
use emby_panel.Failover.{FailoverState, mark_failure, mark_success, ordered, preferred_target}

-- What the transport below says: a response with its status, or an error; `canceled` says that the
-- client gave the request up.
pub data Answer (E : Type 0) : Type 0 where
  response : ℕ → Answer E
  transport_error : E → Bool → Answer E

pub data Result (T E : Type 0) : Type 0 where
  responded : T → ℕ → Result T E
  failed : E → Result T E
  not_replayable : E → Result T E
  exhausted : Result T E

unfoldable pub is_retryable_upstream_status : ℕ → Bool
is_retryable_upstream_status status =
    status == 500 || status == 502 || status == 503 || status == 504

-- resp.StatusCode >= 200 && resp.StatusCode < 400
pub is_success : ℕ → Bool
is_success status = leb 200 status && ltb status 400

pub mark_if_success : {T : Type 0} → (T → String) → T → ℕ → ℕ → FailoverState → FailoverState
unfolding is_success
mark_if_success key t now status s = if is_success status then mark_success key t now s else s

is_more : {T : Type 0} → List T → Bool
is_more [] = false
is_more (_ ∷ _) = true

at_end : {T E : Type 0} → Option E → Result T E
at_end none = exhausted
at_end (some e) = failed e

module _ {T E : Type 0} (key : T → String) (base : T → Answer E) (clone_error : T → Option E)
    (clock : ℕ → ℕ) where
  -- The body of the loop for one line, given the rest of the loop.
  attempt :
      Bool
      → T
      → ℕ
      → Answer E
      → FailoverState
      → (FailoverState → Option E → FailoverState × Result T E)
      → Option E
      → FailoverState × Result T E
  attempt more t now (transport_error e true) s rest last_err = (s, failed e)
  attempt more t now (transport_error e false) s rest last_err =
      rest (mark_failure key t now s) (some e)
  attempt more t now (response status) s rest last_err =
      if is_retryable_upstream_status status
      then (let s' = mark_failure key t now s in
          if more
          then rest s' last_err
          else (mark_if_success key t now status s', responded t status))
      else (mark_if_success key t now status s, responded t status)

  -- for index, target := range targets; `active` is the key of the plan's active line, whose
  -- first attempt needs no clone.
  pub attempts : String → ℕ → List T → FailoverState → Option E → FailoverState × Result T E
  unfolding is_more at_end
  attempts active index [] s last_err = (s, at_end last_err)
  attempts active index (t ∷ ts) s last_err =
      let rest = attempts active (suc index) ts in
      let send = attempt (is_more ts) t (clock index) (base t) s rest last_err in
      if ltb 0 index || not (str_eq (key t) active)
      then (elim (clone_error t) [ none ↦ send | some e ↦ (s, not_replayable e) ])
      else send

  -- RoundTrip of an eligible request.
  pub round_trip : String → List T → ℕ → FailoverState → FailoverState × Result T E
  round_trip active targets now s =
      let (s', lines) = ordered key targets now s in attempts active 0 lines s' none
