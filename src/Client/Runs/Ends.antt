-- ===== src/Client/Runs/Ends.antt =====
-- Every start ends in one report, and no stream is forgotten.
use collab_ide.Base.{
  ℕ, ◌+◌, ◌≡◌, refl, sym, ap, ◌∙◌, arith, List, [], ◌∷◌, some, Str, text, any, count, ◌==◌,
  Bool-cases, inl, inr, subst,
}
use collab_ide.Database.Distinct.{one_if}
use collab_ide.Shared.Languages.{RunFrame, output, exit}
use collab_ide.Client.Runs.{
  running, chunk, Runs, no_runs, Event, pressed, accepted, refused, message, failed, left,
  on_message, is_busy, is_live, react, react_all, RunSummary, summary_line,
}
use collab_ide.Client.Runs.Streams.{
  is_report, is_starting, current, Tidy, reports-add, close_stream-emptied, live_source, start-Tidy,
  open_stream-Tidy, not_started-Tidy, ended-Tidy,
}

module _ (printed seconds : ℕ → Str) where
  on_message-Tidy :
      (frame : RunFrame) (s : Runs)
      → Tidy s
      → s.state ≡ running
      → Tidy (on_message printed seconds frame s)
  on_message-Tidy (output stream data_) s t state = record {
    known = t.known;
    asked = t.asked;
    reported =
        (let more = reports-add s.terminal (chunk stream data_) in
          let before = t.reported in ground arith);
    in_run = t.in_run;
  }
  on_message-Tidy (exit frame) s t state =
      let result : RunSummary = record {
        status = frame.status;
        exit_code = frame.exit_code;
        duration_ms = frame.duration_ms;
        truncated = frame.truncated;
      } in
      ended-Tidy s (summary_line printed seconds result) (some result) t state

  react-Tidy : (e : Event) (s : Runs) → Tidy s → Tidy (react printed seconds e s)
  unfolding react
  react-Tidy pressed s t = start-Tidy s t
  react-Tidy accepted s t = elim (Bool-cases (s.pending == 0)) [
    | inl e ↦ subst Tidy (sym (simp e refl)) t
    | inr e ↦ subst Tidy (sym (simp e refl)) (open_stream-Tidy s t e)
  ]
  react-Tidy (refused failure) s t = elim (Bool-cases (s.pending == 0)) [
    | inl e ↦ subst Tidy (sym (simp e refl)) t
    | inr e ↦ subst Tidy (sym (simp e refl)) (not_started-Tidy s failure t e)
  ]
  react-Tidy (message i frame) s t = elim (Bool-cases (is_live i s)) [
    | inl live ↦
        let (state, open_) =
          live_source i s.source s.state t.in_run (ap (any (λ j. j == i)) (sym t.known) ∙ live) in
        subst Tidy (sym (simp live refl)) (on_message-Tidy frame s t state)
    | inr dead ↦ subst Tidy (sym (simp dead refl)) t
  ]
  react-Tidy (failed i) s t = elim (Bool-cases (is_live i s)) [
    | inl live ↦
        let (state, open_) =
          live_source i s.source s.state t.in_run (ap (any (λ j. j == i)) (sym t.known) ∙ live) in
        subst Tidy (sym (simp (live, open_) refl))
          (ended-Tidy s (8212 ∷ text " the output stream was interrupted") s.summary t state)
    | inr dead ↦ subst Tidy (sym (simp dead refl)) t
  ]
  react-Tidy left s t =
      subst Tidy (sym (close_stream-emptied s t.known))
        (record { known = refl; asked = t.asked; reported = t.reported; in_run = refl })

  react_all-Tidy : (es : List Event) (s : Runs) → Tidy s → Tidy (react_all printed seconds es s)
  react_all-Tidy [] s t = t
  react_all-Tidy (e ∷ es) s t = react_all-Tidy es (react printed seconds e s) (react-Tidy e s t)

  -- After any events, the only stream that is open is the one that the run shows, at most one request has no
  -- answer, which is so just while the run is starting, and the starts that were not ignored are as many as
  -- the lines in the terminal, which each report how one ended, and one more just while a run is starting or running.
  pub react_all-reported :
      (es : List Event)
      → ((react_all printed seconds es no_runs).streams
          ≡ current (react_all printed seconds es no_runs).source)
        × ((react_all printed seconds es no_runs).pending
            ≡ one_if (is_starting (react_all printed seconds es no_runs).state))
        × (count is_report (react_all printed seconds es no_runs).terminal
              + one_if (is_busy (react_all printed seconds es no_runs).state)
            ≡ (react_all printed seconds es no_runs).posted)
  react_all-reported es =
      let t =
        react_all-Tidy es no_runs
          (record { known = refl; asked = refl; reported = refl; in_run = refl }) in
      (t.known, t.asked, t.reported)
