-- ===== src/Progress/Capture.antt =====
-- legacy_progress.go: progressCaptureWriter, which records a response of limited size. A byte is a
-- number; the type of headers is a parameter, and a clone of one is its value.
mod Examples
pub mod Complete
use emby_panel.Prelude.{
  ℕ, ◌-◌, ◌==◌, Bool, true, false, not, ◌&&◌, ◌||◌, Option, none, some, List, [], ◌++◌, length,
  take, leb, ltb, min, if◌then◌else◌,
}

-- 64 << 10.
abbrev pub progress_response_body_limit : ℕ
progress_response_body_limit = 65536

pub record ProgressCaptureWriter (Header : Type 0) : Type 0 where
  pub header : Header
  pub written_header : Header
  pub status : ℕ
  pub body : List ℕ
  pub overflow : Bool

pub record ProgressResponse (Header : Type 0) : Type 0 where
  pub status : ℕ
  pub header : Header
  pub body : List ℕ

module _ {Header : Type 0} where
  -- `empty` is the header map that make gives, and the nil one.
  pub new_progress_capture_writer : Header → ProgressCaptureWriter Header
  new_progress_capture_writer empty = record {
    header = empty;
    written_header = empty;
    status = 0;
    body = [];
    overflow = false;
  }

  pub write_header : ℕ → ProgressCaptureWriter Header → ProgressCaptureWriter Header
  write_header status w =
      if leb 100 status && ltb status 200 && not (status == 101)
      then w
      else if not (w.status == 0)
      then w
      else record w { status = status; written_header = w.header }

  -- The first test of Write and of response.
  pub with_status : ProgressCaptureWriter Header → ProgressCaptureWriter Header
  unfolding write_header
  with_status w = if w.status == 0 then write_header 200 w else w

  -- The part of Write after the status.
  pub append_body : List ℕ → ProgressCaptureWriter Header → ProgressCaptureWriter Header
  append_body payload w =
      let remaining = progress_response_body_limit - length w.body in
      record w {
        body =
            if ltb 0 remaining
            then w.body ++ take (min (length payload) remaining) payload
            else w.body;
        overflow = if ltb remaining (length payload) then true else w.overflow;
      }

  pub write : List ℕ → ProgressCaptureWriter Header → ProgressCaptureWriter Header
  write payload w = append_body payload (with_status w)

  -- The response, or the one that stands for one that is too large (with errProgressResponseTooLarge).
  pub response :
      ProgressResponse Header
      → ProgressCaptureWriter Header
      → ProgressCaptureWriter Header × ProgressResponse Header × Bool
  response bad_gateway w =
      let w' = with_status w in
      let captured : ProgressResponse Header = record {
        status = w'.status;
        header = w'.written_header;
        body = w'.body;
      } in
      (w', if w'.overflow then bad_gateway else captured, w'.overflow)
