-- ===== src/Examples/Runs.antt =====
-- A run from the click to its exit frame, and one whose project is left too early.
use collab_ide.Base.{ℕ, ◌+◌, ◌≡◌, refl, Bool, List, [], ◌∷◌, none, some, Str, text, count}
use collab_ide.Database.Distinct.{one_if}
use collab_ide.Shared.Languages.{RunStatus, stdout, output, exit}
use collab_ide.Client.Runs.{
  no_runs, Event, pressed, accepted, refused, message, failed, left, is_busy, react, react_all,
  api_error,
}
use collab_ide.Client.Runs.Streams.{current, is_starting, is_report}
use collab_ide.Client.Runs.Ends.{react_all-reported}

abbrev digits : ℕ → Str
digits n = (b'0' + n) ∷ []

abbrev whole_run : List Event
whole_run =
    pressed
    ∷ accepted
    ∷ message 0 (output stdout (text "hi"))
    ∷ message 0 (
        exit (record {
          status = RunStatus.finished;
          exit_code = some 0;
          duration_ms = 7;
          truncated = Bool.false;
          message = none;
        }))
    ∷ failed 0
    ∷ pressed
    ∷ refused (api_error (text "TOO_MANY_RUNS") [])
    ∷ []

two_reports : count is_report (react_all digits digits whole_run no_runs).terminal ≡ 2
unfolding react
two_reports = refl

-- The project is left while the request is on its way: its answer opens a stream that nothing closes.
left_while_starting :
    (react_all digits digits (pressed ∷ left ∷ accepted ∷ []) no_runs).streams ≡ 0 ∷ []
unfolding react
left_while_starting = refl

react_all-reported_example :
    ((react_all digits digits whole_run no_runs).streams
      ≡ current (react_all digits digits whole_run no_runs).source)
    × ((react_all digits digits whole_run no_runs).pending
        ≡ one_if (is_starting (react_all digits digits whole_run no_runs).state))
    × (count is_report (react_all digits digits whole_run no_runs).terminal
          + one_if (is_busy (react_all digits digits whole_run no_runs).state)
        ≡ (react_all digits digits whole_run no_runs).posted)
react_all-reported_example = react_all-reported digits digits whole_run
