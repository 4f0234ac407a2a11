-- ===== src/Runner/Limits/Budget.antt =====
-- sandbox/limits.ts: what a run forwards, and what its result says about it.
use collab_ide.Base.{take}
use collab_ide.Base.{
  ℕ, ◌+◌, ◌≤◌, ◌<◌, ◌≡◌, refl, sym, ap, ◌∙◌, inl, inr, true, false, Option, none, some, List, [],
  ◌∷◌, ◌++◌, map, append_assoc, append-nil, length, length-append, length-take, leb, Bool-cases,
  arith,
}
use collab_ide.Shared.Languages.{finished, timeout, max_output_bytes}
use collab_ide.Runner.Limits.{
  AbortReason, by_timeout, by_output, Chunk, RunState, start, abort_over, abort_with, forward,
  forward_rest, for_output, on_output, Event, said, timer, step, run, ContainerResult, ended,
  timed_out, report, run_with_limits,
}
use collab_ide.Runner.Limits.Bytes.{of_chunk, bytes_of, length-of_bytes}
use collab_ide.Runner.Limits.Bytes.{chunks_of}
use collab_ide.Runner.Limits.Metered.{
  Shows, run-Metered, report-truncated, start-Metered, forward_rest-reason,
}

module _ (recode : List ℕ → List ℕ) where
  trips : (s : RunState) → s.reason ≡ none → (abort_with by_output s).reason ≡ some by_output
  unfolding abort_with abort_over
  trips s free = ground arith

  -- One chunk above the budget is enough.
  pub loud_chunk :
      (c : Chunk) (code : Option ℕ) (ms : ℕ)
      → max_output_bytes < length c.bytes
      → (run_with_limits recode (said c ∷ []) (ended code ms)).0.truncated ≡ true
  unfolding run_with_limits run step on_output report
  loud_chunk c code ms over =
      let big : leb (0 + length c.bytes) max_output_bytes ≡ false = ground arith in
      let tripped = trips (forward_rest recode c start) (forward_rest-reason recode c start) in
      let loud : (on_output recode c start).reason ≡ some by_output = simp big tripped in
      let early : timed_out (on_output recode c start).reason ≡ false = ap timed_out loud in
      simp early (ap for_output loud)

  -- Whatever the container prints and whenever the timer fires, what is forwarded is exactly the first 1,000,000 bytes of the output, each byte on its own stream and in its order, in pieces that are forwarded as they are; only where more was printed, one piece of them, the one that is cut, may be forwarded as the text that its bytes decode to.
  pub run_with_limits_budget :
      (es : List Event) (container : ContainerResult)
      → (raw : List Chunk) × (bytes_of raw ≡ take max_output_bytes (bytes_of (chunks_of es)))
        × Shows recode (bytes_of (chunks_of es)) raw (run_with_limits recode es container).1
  unfolding run_with_limits
  run_with_limits_budget es container =
      let v = run-Metered recode [] start es (start-Metered recode) in (v.raw, v.prefix, v.shown)

  -- A run that is reported as truncated has printed at least 1,000,000 bytes.
  pub run_with_limits_truncated :
      (es : List Event) (container : ContainerResult)
      → (run_with_limits recode es container).0.truncated ≡ true
      → max_output_bytes ≤ length (bytes_of (chunks_of es))
  unfolding run_with_limits
  run_with_limits_truncated es container h =
      let v = run-Metered recode [] start es (start-Metered recode) in
      let full = v.full (report-truncated recode (run recode start es) container h) in
      let n = ap length v.prefix in
      omega (arith, full, n, length-take max_output_bytes (bytes_of (chunks_of es)))

  -- A chunk that fits trips nothing.
  quiet_run :
      (s : RunState) (cs : List Chunk)
      → s.reason ≡ none
      → s.sent_bytes + length (bytes_of cs) ≤ max_output_bytes
      → ((run recode s (map said cs)).reason ≡ none)
        × ((run recode s (map said cs)).forwarded ≡ s.forwarded ++ cs)
  unfolding run step on_output forward
  quiet_run s [] free fits = (free, sym (append-nil s.forwarded))
  quiet_run s (c ∷ cs) free fits =
      let size = length-of_bytes c.stream c.bytes in
      let split = length-append (of_chunk c) (bytes_of cs) in
      let room : leb (s.sent_bytes + length c.bytes) max_output_bytes ≡ true = ground arith in
      let going : for_output s.reason ≡ false = ap for_output free in
      let (still, all) = quiet_run (forward c s) cs free (omega (arith, size, split)) in
      let whole = all ∙ append_assoc s.forwarded (c ∷ []) cs in
      let same : on_output recode c s ≡ forward c s = simp (going, room) refl in
      (
        ap (λ t. (run recode t (map said cs)).reason) same ∙ still,
        ap (λ t. (run recode t (map said cs)).forwarded) same ∙ whole,
      )

  -- A program that ends by itself, with at most 1,000,000 bytes of output and before the timer, is reported as finished and not truncated, with its own exit code and running time, and every chunk that it printed is forwarded as it was.
  pub run_with_limits_quiet :
      (cs : List Chunk) (code : Option ℕ) (ms : ℕ)
      → length (bytes_of cs) ≤ max_output_bytes
      → run_with_limits recode (map said cs) (ended code ms) ≡ (
        record {
          status = finished;
          exit_code = code;
          duration_ms = ms;
          truncated = false;
          message = none;
        },
        cs,
      )
  unfolding run_with_limits report
  run_with_limits_quiet cs code ms fits =
      let (free, all) = quiet_run start cs refl (omega arith) in
      let on_time : timed_out (run recode start (map said cs)).reason ≡ false = ap timed_out free in
      let whole : for_output (run recode start (map said cs)).reason ≡ false = ap for_output free in
      rw all (simp (on_time, whole) refl)

  abort_with-reason :
      (r why : AbortReason) (s : RunState) → s.reason ≡ some r → (abort_with why s).reason ≡ some r
  unfolding abort_with abort_over
  abort_with-reason r why s h = ground arith

  timer-trips :
      (s : RunState) → s.reason ≡ none → (abort_with by_timeout s).reason ≡ some by_timeout
  unfolding abort_with abort_over
  timer-trips s free = ground arith

  step-reason :
      (r : AbortReason) (s : RunState) (e : Event)
      → s.reason ≡ some r
      → (step recode s e).reason ≡ some r
  unfolding step on_output forward forward_rest abort_with abort_over
  step-reason r s (said c) h = elim (Bool-cases (for_output s.reason)) [
    | inl done ↦ simp done h
    | inr going ↦ elim (Bool-cases (leb (s.sent_bytes + length c.bytes) max_output_bytes)) [
      | inl fits ↦ simp (going, fits) h
      | inr over ↦
          simp (going, over)
            (abort_with-reason r by_output (forward_rest recode c s)
              (forward_rest-reason recode c s ∙ h))
    ]
  ]
  step-reason r s timer h = abort_with-reason r by_timeout s h

  reason_kept :
      (r : AbortReason) (s : RunState) (es : List Event)
      → s.reason ≡ some r
      → (run recode s es).reason ≡ some r
  unfolding run
  reason_kept r s [] h = h
  reason_kept r s (e ∷ es) h = reason_kept r (step recode s e) es (step-reason r s e h)

  run-append :
      (s : RunState) (xs ys : List Event)
      → run recode s (xs ++ ys) ≡ run recode (run recode s xs) ys
  unfolding run
  run-append s [] ys = refl
  run-append s (x ∷ xs) ys = run-append (step recode s x) xs ys

  -- Of the two limits the first to trip decides the outcome: when the timer fires before the output has passed the cap, the run is reported as a timeout with no exit code and not truncated, whatever is printed after that.
  pub run_with_limits_late :
      (cs : List Chunk) (es : List Event) (code : Option ℕ) (ms : ℕ)
      → length (bytes_of cs) ≤ max_output_bytes
      → let (result, forwarded) =
          run_with_limits recode (map said cs ++ timer ∷ es) (ended code ms) in
        (result.status ≡ timeout) × (result.exit_code ≡ none) × (result.truncated ≡ false)
  unfolding run_with_limits report run step
  run_with_limits_late cs es code ms fits =
      let (free, all) = quiet_run start cs refl (omega arith) in
      let tripped : (abort_with by_timeout (run recode start (map said cs))).reason
          ≡ some by_timeout =
        timer-trips (run recode start (map said cs)) free in
      let kept =
        reason_kept by_timeout (abort_with by_timeout (run recode start (map said cs))) es
          tripped in
      let late : timed_out (run recode start (map said cs ++ timer ∷ es)).reason ≡ true =
        ap (λ t. timed_out t.reason) (run-append start (map said cs) (timer ∷ es))
        ∙ ap timed_out kept in
      simp late (refl, refl, refl)
