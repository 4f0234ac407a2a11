-- ===== src/Client/Runs.antt =====
-- apps/web/src/features/terminal/useRun.ts: the states of a run in the browser, over the clicks, the answers
-- of the server, the events of the streams and the clean-up when the project is left. `start` reads the
-- state of the last rendering, which is the present one between two events.
pub mod Streams
pub mod Ends
use collab_ide.Base.{
  ℕ, ◌+◌, ◌-◌, ◌≡◌, Bool, true, false, not, ◌||◌, List, [], ◌∷◌, ◌++◌, Option, none, some, Str,
  text, ◌===◌, any, keep, ◌==◌, is_some, if◌then◌else◌,
}
use collab_ide.Shared.Languages.{
  RunStatus, timeout, error, OutputStream, ExitFrame, RunFrame, output, exit,
}

pub data RunState : Type 0 where
  idle starting running finished : RunState

-- ApiError with its code and message, or anything else that was thrown.
pub data Failure : Type 0 where
  api_error : Str → Str → Failure
  other_error : Failure

abbrev pub could_not_start : Str
could_not_start = text "Could not start the run."

abbrev pub message_for : Failure → Str
message_for other_error = could_not_start
message_for (api_error code message) =
    if code === text "LANGUAGE_UNSUPPORTED"
    then text "There's no runtime for this file type."
    else (if code === text "RUN_TOO_LARGE"
        then message
        else (if code === text "TOO_MANY_RUNS"
            then text "Too many runs in progress. Try again in a moment."
            else (if code === text "FILE_NOT_FOUND"
                then text "That file no longer exists."
                else could_not_start)))

pub record RunSummary : Type 0 where
  pub status : RunStatus
  pub exit_code : Option ℕ
  pub duration_ms : ℕ
  pub truncated : Bool

-- What is asked of the terminal. A report is a line.
pub data Write : Type 0 where
  clear : Write
  chunk : OutputStream → Str → Write
  line : Str → Write

-- `printed` prints a number, `seconds` is `(ms / 1000).toFixed(1)`. A dash is the unit 8212.
module _ (printed seconds : ℕ → Str) where
  abbrev pub printed_or : Option ℕ → Str
  printed_or none = text "?"
  printed_or (some n) = printed n

  abbrev pub summary_line : RunSummary → Str
  summary_line summary = line_of summary.status
    where
      line_of : RunStatus → Str
      line_of timeout = 8212 ∷ text " TIMEOUT after " ++ seconds summary.duration_ms ++ text "s"
      line_of error = 8212 ∷ text " the run could not be started"
      line_of ended =
          8212 ∷ text " exited "
          ++ printed_or summary.exit_code
          ++ text " in "
          ++ printed summary.duration_ms
          ++ text "ms"
          ++ (if summary.truncated then text " (output truncated at 1 MB)" else [])

-- The streams are numbered in the order in which they are made; `streams` are the ones that are open.
pub record Runs : Type 0 where
  pub state : RunState
  pub summary : Option RunSummary
  pub source : Option ℕ
  pub streams : List ℕ
  pub made : ℕ
  -- The requests that were sent, and how many of them are not answered.
  pub posted : ℕ
  pub pending : ℕ
  pub terminal : List Write

abbrev pub no_runs : Runs
no_runs = record {
  state = idle;
  summary = none;
  source = none;
  streams = [];
  made = 0;
  posted = 0;
  pending = 0;
  terminal = [];
}

pub data Event : Type 0 where
  pressed : Event
  accepted : Event
  refused : Failure → Event
  message : ℕ → RunFrame → Event
  failed : ℕ → Event
  -- The clean-up of the effect: the component is unmounted, or the project is another one.
  left : Event

abbrev pub close_source : Option ℕ → Runs → Runs
close_source none s = s
close_source (some i) s = record s { source = none; streams = keep (λ j. not (j == i)) s.streams }

abbrev pub close_stream : Runs → Runs
close_stream s = close_source s.source s

abbrev pub is_busy : RunState → Bool
is_busy idle = false
is_busy starting = true
is_busy running = true
is_busy finished = false

abbrev pub begin : Runs → Runs
begin s = record s {
  summary = none;
  state = starting;
  terminal = s.terminal ++ clear ∷ [];
  posted = s.posted + 1;
  pending = s.pending + 1;
}

abbrev pub start : Runs → Runs
start s = if is_busy s.state then s else begin (close_stream s)

abbrev pub open_stream : Runs → Runs
open_stream s = record s {
  state = running;
  source = some s.made;
  streams = s.made ∷ s.streams;
  made = s.made + 1;
  pending = s.pending - 1;
}

abbrev pub not_started : Failure → Runs → Runs
not_started failure s = record s {
  state = finished;
  terminal = s.terminal ++ line (message_for failure) ∷ [];
  pending = s.pending - 1;
}

module _ (printed seconds : ℕ → Str) where
  abbrev pub finish : RunSummary → Runs → Runs
  finish result s = close_stream (record s {
    terminal = s.terminal ++ line (summary_line printed seconds result) ∷ [];
    summary = some result;
    state = finished;
  })

  abbrev pub on_message : RunFrame → Runs → Runs
  on_message (output stream data_) s = record s { terminal = s.terminal ++ chunk stream data_ ∷ [] }
  on_message (exit frame) s =
      finish
        (record {
          status = frame.status;
          exit_code = frame.exit_code;
          duration_ms = frame.duration_ms;
          truncated = frame.truncated;
        })
        s

abbrev pub interrupted : Runs → Runs
interrupted s = close_stream (record s {
  terminal = s.terminal ++ line (8212 ∷ text " the output stream was interrupted") ∷ [];
  state = finished;
})

abbrev pub on_error : Runs → Runs
on_error s = if is_some s.source then interrupted s else s

-- A stream that is open.
abbrev pub is_live : ℕ → Runs → Bool
is_live i s = any (λ j. j == i) s.streams

module _ (printed seconds : ℕ → Str) where
  -- An answer is to a request; a stream that was closed has no events.
  unfoldable pub react : Event → Runs → Runs
  react pressed s = start s
  react accepted s = if s.pending == 0 then s else open_stream s
  react (refused failure) s = if s.pending == 0 then s else not_started failure s
  react (message i frame) s = if is_live i s then on_message printed seconds frame s else s
  react (failed i) s = if is_live i s then on_error s else s
  react left s = close_stream s

  abbrev pub react_all : List Event → Runs → Runs
  react_all [] s = s
  react_all (e ∷ es) s = react_all es (react e s)
