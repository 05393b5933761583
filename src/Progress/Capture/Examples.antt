-- ===== src/Progress/Capture/Examples.antt =====
-- A handler that writes a status and three bytes.
use emby_panel.Prelude.{ℕ, ◌≡◌, true, false, List, [], ◌∷◌, length, ltb}
use emby_panel.Progress.Capture.{
  progress_response_body_limit, ProgressResponse, new_progress_capture_writer, response,
}
use emby_panel.Progress.Capture.Complete.{
  Call, writes_header, writes, sent, run, captured_whole_or_error,
}

abbrev some_writes : List Call
some_writes = writes_header 204 ∷ writes (1 ∷ 2 ∷ []) ∷ writes (3 ∷ []) ∷ []

abbrev bad_gateway : ProgressResponse ℕ
bad_gateway = record { status = 502; header = 7; body = [] }

captured_whole_or_error_example :
    let (_, r, too_large) =
      response bad_gateway (run some_writes (new_progress_capture_writer 0)) in
    (too_large ≡ ltb progress_response_body_limit (length (sent some_writes)))
    × (too_large ≡ true → r ≡ bad_gateway)
    × (too_large ≡ false → r.body ≡ sent some_writes)
captured_whole_or_error_example = captured_whole_or_error 0 some_writes bad_gateway
