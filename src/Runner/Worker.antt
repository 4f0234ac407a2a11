-- ===== src/Runner/Worker.antt =====
-- apps/runner/src/worker.ts: one job in, a stream of frames out. What `runWithLimits` does is an
-- `Outcome`, with the chunks that it forwards on the way. `decode` is Buffer.toString('utf8'), `recode` the
-- bytes of what it gives, and
-- `accepts n` says whether Redis takes the publication that comes after `n` others.
pub mod OneExit
use collab_ide.Base.{
  ℕ, suc, ◌+◌, Bool, true, false, none, some, List, [], ◌∷◌, ◌++◌, Str, text, if◌then◌else◌,
}
use collab_ide.Shared.Languages.{error, ExitFrame, RunFrame, output, exit}
use collab_ide.Runner.Limits.{Chunk, LimitedRunResult, Event, ContainerResult, run_with_limits}

pub data Outcome : Type 0 where
  returned : LimitedRunResult → Outcome
  threw : Outcome

pub record Job : Type 0 where
  pub terminal_sent : Bool
  -- What `publish` was called with, and what reached the channel.
  pub issued : List RunFrame
  pub delivered : List RunFrame
  pub attempts : ℕ

abbrev pub fresh_job : Job
fresh_job = record { terminal_sent = false; issued = []; delivered = []; attempts = 0 }

abbrev pub failed_frame : Str → ExitFrame
failed_frame message = record {
  status = error;
  exit_code = none;
  duration_ms = 0;
  truncated = false;
  message = some message;
}

abbrev pub exit_of : LimitedRunResult → ExitFrame
exit_of r = record {
  status = r.status;
  exit_code = r.exit_code;
  duration_ms = r.duration_ms;
  truncated = r.truncated;
  message = r.message;
}

module _ (decode : List ℕ → Str) (accepts : ℕ → Bool) where
  -- A publication that fails is logged, and the handler goes on.
  pub publish : RunFrame → Job → Job
  publish frame j = record j {
    issued = j.issued ++ frame ∷ [];
    delivered = if accepts j.attempts then j.delivered ++ frame ∷ [] else j.delivered;
    attempts = suc j.attempts;
  }

  send_exit : ExitFrame → Job → Job
  send_exit f j =
      if j.terminal_sent then j else publish (exit f) (record j { terminal_sent = true })

  abbrev pub frame_of : Chunk → RunFrame
  frame_of c = output c.stream (decode c.bytes)

  publish_output : List Chunk → Job → Job
  publish_output [] j = j
  publish_output (c ∷ cs) j = publish_output cs (publish (frame_of c) j)

  -- The end of the `try` block, or its `catch`.
  conclude : Outcome → Job → Job
  unfolding send_exit
  conclude (returned r) j = send_exit (exit_of r) j
  conclude threw j = send_exit (failed_frame (text "run failed")) j

  pub handle_run_job : Outcome → List Chunk → Job
  unfolding publish_output conclude send_exit
  handle_run_job outcome chunks =
      let tried = conclude outcome (publish_output chunks fresh_job) in
      send_exit (failed_frame (text "run failed")) tried

  -- The job as the worker runs it, with the limits around the container.
  pub run_job : (List ℕ → List ℕ) → List Event → ContainerResult → Job
  run_job recode events container =
      let (result, forwarded) = run_with_limits recode events container in
      handle_run_job (returned result) forwarded
