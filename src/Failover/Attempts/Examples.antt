-- ===== src/Failover/Attempts/Examples.antt =====
-- Two lines, of which the first answers 503.
use emby_panel.Prelude.{
  ℕ, List, ◌+◌, ◌≡◌, refl, false, if◌then◌else◌, Option, none, [], ◌∷◌, String, length, str_eq,
}
use emby_panel.Failover.{FailoverState, new_upstream_failover_state, ordered}
use emby_panel.Failover.Attempts.{
  Answer, response, responded, is_retryable_upstream_status, round_trip,
}
use emby_panel.Failover.Attempts.Outcome.{
  Passed, failures, all_left, answered_at, last_result, round_trip_first_answer,
  round_trip_no_answer,
}

abbrev own_key : String → String
own_key s = s

abbrev answers : String → Answer ℕ
answers s = if str_eq s "a" then response 503 else response 200

abbrev all_503 : String → Answer ℕ
all_503 s = response 503

abbrev no_error : String → Option ℕ
no_error s = none

abbrev clock : ℕ → ℕ
clock n = 100 + n

abbrev start : FailoverState
start = new_upstream_failover_state

in_given_order : (ordered own_key ("a" ∷ "b" ∷ []) 5 start).1 ≡ "a" ∷ "b" ∷ []
unfolding ordered new_upstream_failover_state emby_panel.Failover.with_rank emby_panel.Failover.rank
    emby_panel.Failover.probes_primary emby_panel.Failover.prune_failed
in_given_order = refl

passed : (s : String) → answers s ≡ response 503 → Passed own_key answers no_error clock s
unfolding is_retryable_upstream_status
passed s e = (refl, rw e refl)

stops_at_200 : is_retryable_upstream_status 200 ≡ false
unfolding is_retryable_upstream_status
stops_at_200 = refl

left_behind : (s : String) → Passed own_key all_503 no_error clock s
unfolding is_retryable_upstream_status
left_behind s = (refl, refl)

abbrev before : List String
before = "a" ∷ []

round_trip_first_answer_example :
    round_trip own_key answers no_error clock "a" ("a" ∷ "b" ∷ []) 5 start ≡ (
      answered_at own_key answers no_error clock (clock (length before)) "b" 200 (
          all_left own_key answers no_error clock 0
            ("a" ∷ [])
            (ordered own_key ("a" ∷ "b" ∷ []) 5 start).0),
      responded "b" 200,
    )
round_trip_first_answer_example =
    round_trip_first_answer own_key answers no_error clock "a" ("a" ∷ "b" ∷ []) ("a" ∷ []) [] "b"
      200 5 start in_given_order (passed "a" refl, tt) refl refl stops_at_200

round_trip_no_answer_example :
    round_trip own_key all_503 no_error clock "a" ("a" ∷ "b" ∷ []) 5 start ≡ (
      failures own_key all_503 no_error clock 0
          ("a" ∷ "b" ∷ [])
          (ordered own_key ("a" ∷ "b" ∷ []) 5 start).0,
      last_result own_key all_503 no_error clock "b" (all_503 "b"),
    )
round_trip_no_answer_example =
    round_trip_no_answer own_key all_503 no_error clock "a" ("a" ∷ "b" ∷ []) ("a" ∷ []) "b" 5 start
      in_given_order (left_behind "a", tt) (left_behind "b")
