-- ===== src/Runner/Limits.antt =====
-- apps/runner/src/sandbox/limits.ts. A chunk of output is its UTF-8 bytes, which is what the
-- budget counts; `recode` gives the bytes of the
-- text that `toString('utf8')` decodes bytes to, with U+FFFD for a sequence that is cut. The container
-- is what `run_in_container` reports at the end: its exit code and the time that it took, or an error.
pub mod Bytes
pub mod Metered
pub mod Budget
use collab_ide.Base.{
  ℕ, ◌+◌, ◌-◌, ◌≡◌, Bool, true, false, Option, none, some, List, [], ◌∷◌, ◌++◌, take, length, Str,
  ltb, leb, if◌then◌else◌,
}
use collab_ide.Shared.Languages.{
  RunStatus, finished, timeout, error, OutputStream, max_output_bytes,
}

pub data AbortReason : Type 0 where
  by_timeout by_output : AbortReason

pub record Chunk : Type 0 where
  pub stream : OutputStream
  pub bytes : List ℕ

pub record RunState : Type 0 where
  pub reason : Option AbortReason
  pub aborted : Bool
  pub sent_bytes : ℕ
  -- What `spec.onOutput` has been given.
  pub forwarded : List Chunk

abbrev pub start : RunState
start = record { reason = none; aborted = false; sent_bytes = 0; forwarded = [] }

-- First writer wins.
abort_over : Option AbortReason → AbortReason → RunState → RunState
abort_over none why s = record s { reason = some why; aborted = true }
abort_over (some r) why s = s

pub abort_with : AbortReason → RunState → RunState
unfolding abort_over
abort_with why s = abort_over s.reason why s

forward : Chunk → RunState → RunState
forward c s = record s {
  sent_bytes = s.sent_bytes + length c.bytes;
  forwarded = s.forwarded ++ c ∷ [];
}

abbrev for_output : Option AbortReason → Bool
for_output none = false
for_output (some by_timeout) = false
for_output (some by_output) = true

pub data Event : Type 0 where
  said : Chunk → Event
  timer : Event

module _ (recode : List ℕ → List ℕ) where
  -- The chunk that crosses the budget is cut at it, and decoded.
  pub forward_rest : Chunk → RunState → RunState
  forward_rest c s =
      let remaining = max_output_bytes - s.sent_bytes in
      if ltb 0 remaining
      then record s {
        sent_bytes = s.sent_bytes + remaining;
        forwarded = s.forwarded ++ record c { bytes = recode (take remaining c.bytes) } ∷ [];
      }
      else s

  pub on_output : Chunk → RunState → RunState
  on_output c s =
      if for_output s.reason
      then s
      else if leb (s.sent_bytes + length c.bytes) max_output_bytes
      then forward c s
      else abort_with by_output (forward_rest c s)

  pub step : RunState → Event → RunState
  step s (said c) = on_output c s
  step s timer = abort_with by_timeout s

  pub run : RunState → List Event → RunState
  run s [] = s
  run s (e ∷ es) = run (step s e) es

pub data ContainerResult : Type 0 where
  ended : Option ℕ → ℕ → ContainerResult
  failed : Str → ℕ → ContainerResult

pub record LimitedRunResult : Type 0 where
  pub status : RunStatus
  pub exit_code : Option ℕ
  pub duration_ms : ℕ
  pub truncated : Bool
  pub message : Option Str

abbrev timed_out : Option AbortReason → Bool
timed_out none = false
timed_out (some by_timeout) = true
timed_out (some by_output) = false

pub report : RunState → ContainerResult → LimitedRunResult
report s (ended exit_code duration_ms) =
    if timed_out s.reason
    then record {
      status = timeout;
      exit_code = none;
      duration_ms = duration_ms;
      truncated = false;
      message = none;
    }
    else record {
      status = finished;
      exit_code = exit_code;
      duration_ms = duration_ms;
      truncated = for_output s.reason;
      message = none;
    }
report s (failed message duration_ms) = record {
  status = error;
  exit_code = none;
  duration_ms = duration_ms;
  truncated = for_output s.reason;
  message = some message;
}

module _ (recode : List ℕ → List ℕ) where
  -- The result, with what was forwarded on the way.
  pub run_with_limits : List Event → ContainerResult → LimitedRunResult × List Chunk
  unfolding report
  run_with_limits events container =
      let s = run recode start events in (report s container, s.forwarded)
