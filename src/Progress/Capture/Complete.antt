-- ===== src/Progress/Capture/Complete.antt =====
-- A captured response is whole, or it is an error.
use mathlib.Core.Path.{subst}
use mathlib.Core.List.{append_assoc, append-nil}
use emby_panel.Prelude.{
  ℕ, ◌-◌, ◌≤◌, ◌<◌, ◌≡◌, refl, sym, ap, ◌∙◌, true, false, not, ◌&&◌, ◌==◌, List, [], ◌∷◌, ◌++◌,
  arith, length, take, length-append, length-take, leb, ltb, min, Bool-cases, inl, inr,
  if◌then◌else◌,
}
use emby_panel.Progress.Capture.{
  progress_response_body_limit, ProgressCaptureWriter, ProgressResponse,
  new_progress_capture_writer, write_header, with_status, append_body, write, response,
}

-- What a handler does with the writer.
pub data Call : Type 0 where
  writes_header : ℕ → Call
  writes : List ℕ → Call

-- The bytes that the handler wrote.
abbrev pub sent : List Call → List ℕ
sent [] = []
sent (writes_header status ∷ cs) = sent cs
sent (writes payload ∷ cs) = payload ++ sent cs

take-length : (xs : List ℕ) → take (length xs) xs ≡ xs
take-length [] = refl
take-length (x ∷ xs) = ap (λ ys. x ∷ ys) (take-length xs)

module _ {Header : Type 0} where
  unfoldable pub run : List Call → ProgressCaptureWriter Header → ProgressCaptureWriter Header
  run [] w = w
  run (writes_header status ∷ cs) w = run cs (write_header status w)
  run (writes payload ∷ cs) w = run cs (write payload w)

  -- The bytes up to now are all there, or there were too many.
  record Captures (bytes : List ℕ) (w : ProgressCaptureWriter Header) : Type 0 where
    bounded : length w.body ≤ progress_response_body_limit
    whole : w.overflow ≡ false → w.body ≡ bytes
    too_many : w.overflow ≡ true → progress_response_body_limit < length bytes

  write_header-Captures :
      (status : ℕ) (bytes : List ℕ) (w : ProgressCaptureWriter Header)
      → Captures bytes w
      → Captures bytes (write_header status w)
  unfolding write_header
  write_header-Captures status bytes w v =
      elim (Bool-cases (leb 100 status && ltb status 200 && not (status == 101))) [
        | inl informational ↦ rw informational v
        | inr final ↦ elim (Bool-cases (not (w.status == 0))) [
          | inl written ↦ rw (final, written) v
          | inr unset ↦
              rw (final, unset)
                (record { bounded = v.bounded; whole = v.whole; too_many = v.too_many })
        ]
      ]

  with_status-Captures :
      (bytes : List ℕ) (w : ProgressCaptureWriter Header)
      → Captures bytes w
      → Captures bytes (with_status w)
  unfolding with_status write_header
  with_status-Captures bytes w v = elim (Bool-cases (w.status == 0)) [
    | inl unset ↦ rw unset (record { bounded = v.bounded; whole = v.whole; too_many = v.too_many })
    | inr written ↦ rw written v
  ]

  append_body_overflow :
      (payload : List ℕ) (w : ProgressCaptureWriter Header)
      → (append_body payload w).overflow ≡ (
          if ltb (progress_response_body_limit - length w.body) (length payload)
          then true
          else w.overflow)
  unfolding append_body
  append_body_overflow payload w = refl

  -- What is appended, where the payload fits.
  append_body_fits :
      (payload : List ℕ) (w : ProgressCaptureWriter Header)
      → ltb (progress_response_body_limit - length w.body) (length payload) ≡ false
      → (append_body payload w).body ≡ w.body ++ payload
  unfolding append_body
  append_body_fits [] w fits =
      elim (Bool-cases (ltb 0 (progress_response_body_limit - length w.body))) [
        | inl room ↦ rw room (
            let none_taken : min 0 (progress_response_body_limit - length w.body) ≡ 0 =
              omega arith in
            ap (λ n. w.body ++ take n []) none_taken)
        | inr full ↦ rw full (sym (append-nil w.body))
      ]
  append_body_fits (x ∷ xs) w fits =
      let room : ltb 0 (progress_response_body_limit - length w.body) ≡ true = ground arith in
      let whole : min (length (x ∷ xs)) (progress_response_body_limit - length w.body)
          ≡ length (x ∷ xs) =
        ground arith in
      rw (room, whole) (ap (λ ys. w.body ++ x ∷ ys) (take-length xs))

  append_body_bounded :
      (payload : List ℕ) (w : ProgressCaptureWriter Header)
      → length w.body ≤ progress_response_body_limit
      → length (append_body payload w).body ≤ progress_response_body_limit
  unfolding append_body
  append_body_bounded payload w bound =
      let remaining = progress_response_body_limit - length w.body in
      let cut = take (min (length payload) remaining) payload in
      elim (Bool-cases (ltb 0 remaining)) [
        | inl room ↦ rw room (
            omega (
              arith,
              length-append w.body cut,
              length-take (min (length payload) remaining) payload,
              bound,
            ))
        | inr full ↦ rw full bound
      ]

  append_body-Captures :
      (payload bytes : List ℕ) (w : ProgressCaptureWriter Header)
      → Captures bytes w
      → Captures (bytes ++ payload) (append_body payload w)
  append_body-Captures payload bytes w v =
      let size = length-append bytes payload in
      let flag = append_body_overflow payload w in
      elim (Bool-cases (ltb (progress_response_body_limit - length w.body) (length payload))) [
        | inl more ↦ record {
          bounded = append_body_bounded payload w v.bounded;
          whole = λ e. absurd (ground (arith, flag));
          too_many = λ e. elim (Bool-cases w.overflow) [
            | inl over ↦ omega (arith, size, v.too_many over)
            | inr fine ↦ ground (arith, size, ap length (v.whole fine))
          ];
        }
        | inr fits ↦ record {
          bounded = append_body_bounded payload w v.bounded;
          whole = λ e.
              append_body_fits payload w fits
              ∙ ap (λ (ys : List ℕ). ys ++ payload) (v.whole (ground (arith, flag)));
          too_many = λ e. omega (arith, size, v.too_many (ground (arith, flag)));
        }
      ]

  run-Captures :
      (cs : List Call) (bytes : List ℕ) (w : ProgressCaptureWriter Header)
      → Captures bytes w
      → Captures (bytes ++ sent cs) (run cs w)
  unfolding run write
  run-Captures [] bytes w v = subst (λ b. Captures b w) (sym (append-nil bytes)) v
  run-Captures (writes_header status ∷ cs) bytes w v =
      run-Captures cs bytes (write_header status w) (write_header-Captures status bytes w v)
  run-Captures (writes payload ∷ cs) bytes w v =
      let w' = write payload w in
      subst (λ b. Captures b (run cs w')) (append_assoc bytes payload (sent cs))
        (run-Captures cs (bytes ++ payload) w'
          (append_body-Captures payload bytes (with_status w) (with_status-Captures bytes w v)))

  -- Whatever statuses and bytes a handler writes: if it writes no more bytes than the limit, the
  -- response has exactly these, in order; if it writes more, the response is the given error.
  pub captured_whole_or_error :
      (empty : Header) (cs : List Call) (bad_gateway : ProgressResponse Header)
      → let (_, r, too_large) = response bad_gateway (run cs (new_progress_capture_writer empty)) in
        (too_large ≡ ltb progress_response_body_limit (length (sent cs)))
        × (too_large ≡ true → r ≡ bad_gateway)
        × (too_large ≡ false → r.body ≡ sent cs)
  unfolding response new_progress_capture_writer
  captured_whole_or_error empty cs bad_gateway =
      let w = run cs (new_progress_capture_writer empty) in
      let v : Captures (sent cs) w =
        run-Captures cs [] (new_progress_capture_writer empty) (record {
          bounded = omega arith;
          whole = λ e. refl;
          too_many = λ e. absurd (ground arith);
        }) in
      let v' = with_status-Captures (sent cs) w v in
      elim (Bool-cases (with_status w).overflow) [
        | inl over ↦
            rw over (ground (arith, v'.too_many over), λ e. refl, λ e. absurd (ground arith))
        | inr fine ↦ rw fine (
          ground (arith, ap length (v'.whole fine), v'.bounded),
          λ e. absurd (ground arith),
          λ e. v'.whole fine,
        )
      ]
