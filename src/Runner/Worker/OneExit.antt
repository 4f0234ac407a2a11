-- ===== src/Runner/Worker/OneExit.antt =====
-- worker.ts: the frames that a job publishes.
use collab_ide.Base.{
  ℕ, ◌≡◌, refl, sym, ap, ◌∙◌, Bool, true, false, List, [], ◌∷◌, ◌++◌, map, append_assoc, append-nil,
  Str, text,
}
use collab_ide.Shared.Languages.{ExitFrame, exit}
use collab_ide.Runner.Limits.{Chunk, said}
use collab_ide.Runner.Worker.{
  Outcome, returned, threw, Job, fresh_job, failed_frame, exit_of, publish, send_exit, frame_of,
  publish_output, conclude, handle_run_job,
}

abbrev pub last_frame : Outcome → ExitFrame
last_frame (returned r) = exit_of r
last_frame threw = failed_frame (text "run failed")

module _ (decode : List ℕ → Str) (accepts : ℕ → Bool) where
  publish_output-issued :
      (cs : List Chunk) (j : Job)
      → (publish_output decode accepts cs j).issued ≡ j.issued ++ map (frame_of decode accepts) cs
  unfolding publish_output publish
  publish_output-issued [] j = sym (append-nil j.issued)
  publish_output-issued (c ∷ cs) j =
      publish_output-issued cs (publish decode accepts (frame_of decode accepts c) j)
      ∙ append_assoc j.issued (frame_of decode accepts c ∷ []) (map (frame_of decode accepts) cs)

  publish_output-open :
      (cs : List Chunk) (j : Job)
      → (publish_output decode accepts cs j).terminal_sent ≡ j.terminal_sent
  unfolding publish_output publish
  publish_output-open [] j = refl
  publish_output-open (c ∷ cs) j =
      publish_output-open cs (publish decode accepts (frame_of decode accepts c) j)

  send_exit-first :
      (f : ExitFrame) (j : Job)
      → j.terminal_sent ≡ false
      → ((send_exit decode accepts f j).issued ≡ j.issued ++ exit f ∷ [])
        × ((send_exit decode accepts f j).terminal_sent ≡ true)
  unfolding send_exit publish
  send_exit-first f j fresh = simp fresh (refl, refl)

  send_exit-again :
      (f : ExitFrame) (j : Job) → j.terminal_sent ≡ true → send_exit decode accepts f j ≡ j
  unfolding send_exit
  send_exit-again f j sent = simp sent refl

  conclude_lem :
      (o : Outcome) (j : Job)
      → j.terminal_sent ≡ false
      → ((conclude decode accepts o j).issued ≡ j.issued ++ exit (last_frame o) ∷ [])
        × ((conclude decode accepts o j).terminal_sent ≡ true)
  unfolding conclude
  conclude_lem (returned r) j fresh = send_exit-first (exit_of r) j fresh
  conclude_lem threw j fresh = send_exit-first (failed_frame (text "run failed")) j fresh

  -- Whether the run returns or throws, and whatever Redis refuses, a job publishes its output frames in the order of the output and after them exactly one exit frame: that of the result, or a failure when the run threw.
  pub handle_run_job-issued :
      (o : Outcome) (cs : List Chunk)
      → (handle_run_job decode accepts o cs).issued
        ≡ map (frame_of decode accepts) cs ++ exit (last_frame o) ∷ []
  unfolding handle_run_job
  handle_run_job-issued o cs =
      let said = publish_output-issued cs fresh_job in
      let fresh = publish_output-open cs fresh_job in
      let (one, sent) = conclude_lem o (publish_output decode accepts cs fresh_job) fresh in
      ap (λ j. j.issued)
        (send_exit-again (failed_frame (text "run failed"))
          (conclude decode accepts o (publish_output decode accepts cs fresh_job)) sent)
      ∙ one
      ∙ ap (λ fs. fs ++ exit (last_frame o) ∷ []) said
