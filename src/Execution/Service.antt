-- ===== src/Execution/Service.antt =====
-- apps/server/src/modules/execution/service.ts: starting a run. `byte_length` is Buffer.byteLength,
-- `show` a number in a message, `refused` the error that the queue throws, if it does. The order of
-- the files, and the flush of the rooms before they are read, are left to the database.
pub mod Caps
use collab_ide.Base.{
  ℕ, ◌+◌, Bool, true, false, ◌&&◌, not, Option, none, some, List, [], ◌∷◌, ◌++◌, map, keep, find,
  length, Str, text, ◌===◌, ltb, AppError, Result, ok, err, ◌>>=◌, ◌>>◌, throw_if, or_throw,
}
use collab_ide.Database.{Table, find_many}
use collab_ide.Files.Rows.{FileRow, same_path}
use collab_ide.Files.Service.{file_not_found}
use collab_ide.Shared.Languages.{
  RunFile, RunJob, language_for_path, max_run_files, max_run_input_bytes,
}
use collab_ide.Execution.Registry.{Registry, open_test, open_settled, close}

abbrev pub language_unsupported : AppError
language_unsupported = record {
  status = 400;
  code = text "LANGUAGE_UNSUPPORTED";
  message = text "There is no runtime for this file type.";
}

abbrev pub run_too_large : Str → AppError
run_too_large message = record { status = 413; code = text "RUN_TOO_LARGE"; message = message }

abbrev pub run_file : FileRow → RunFile
run_file r = record { path = r.path; content = r.content }

-- The queue's answer: a job that was not enqueued gives its entry back. `others` is what other calls do
-- to the registry during the await.
unfoldable pub enqueued :
    (Registry → Registry) → Option AppError → RunJob → Registry → Result RunJob × Registry
enqueued others none job r = (ok job, others r)
enqueued others (some e) job r =
    let now = others r in (err e, record now { entries = close job.job_id now.entries })

-- What follows the await in `registry.open`, and the `try` block.
unfoldable pub opened :
    Option AppError
    → (Registry → Registry)
    → RunJob
    → Result (Unit {0}) × Registry
    → Result RunJob × Registry
unfolding enqueued
opened refused others job (ok done, r) = enqueued others refused job r
opened refused others job (err e, r) = (err e, r)

module _ (to_lower_case : Str → Str) (byte_length : Str → ℕ) (show : ℕ → Str) where
  abbrev pub total_bytes : List RunFile → ℕ
  total_bytes [] = 0
  total_bytes (f ∷ files) = byte_length f.content + total_bytes files

  unfoldable pub assert_within_caps : List RunFile → Result (Unit {0})
  assert_within_caps files = do
    throw_if (ltb max_run_files (length files)) (
        run_too_large (
          text "This project has "
          ++ show (length files)
          ++ text " files; a run allows at most 100."))
    throw_if (ltb max_run_input_bytes (total_bytes files)) (
        run_too_large (
          text "This project is "
          ++ show (total_bytes files)
          ++ text " bytes; a run allows at most 1000000."))

  module _ (t : Table FileRow same_path) where
    unfoldable pub list_files_for_run : Str → t.Db → List RunFile
    list_files_for_run project_id d =
        map run_file (find_many t (λ r. (r.project_id === project_id) && not r.is_dir) d)

    -- Everything before `registry.open`: the checks, and the job.
    unfoldable pub prepare : Str → Str → Str → t.Db → Result RunJob
    unfolding assert_within_caps list_files_for_run
    prepare job_id project_id entrypoint d = do
      language_id ← or_throw (language_for_path to_lower_case entrypoint) language_unsupported
      let files : List RunFile = list_files_for_run project_id d
      target ← or_throw (find (λ f. f.path === entrypoint) files) file_not_found
      assert_within_caps files
      ok (record {
        job_id = job_id;
        project_id = project_id;
        language_id = language_id;
        entrypoint = entrypoint;
        files = files;
      })

    -- `unsubscribed` is the error of Redis for the SUBSCRIBE, `refused` that of the queue, if there is one;
    -- `meanwhile` and `after` are what other calls do during these two awaits.
    abbrev pub tested :
        Option AppError
        → Option AppError
        → (Registry → Registry)
        → (Registry → Registry)
        → Str
        → RunJob
        → Registry
        → Result (Unit {0})
        → Result RunJob × Registry
    tested unsubscribed refused meanwhile after user_id job r (err e) = (err e, r)
    tested unsubscribed refused meanwhile after user_id job r (ok done) =
        opened refused after job
          (open_settled unsubscribed job.job_id job.project_id user_id (meanwhile r))

    unfoldable pub launch :
        Result RunJob
        → Str
        → Option AppError
        → Option AppError
        → (Registry → Registry)
        → (Registry → Registry)
        → Registry
        → Result RunJob × Registry
    launch (err e) user_id unsubscribed refused meanwhile after r = (err e, r)
    launch (ok job) user_id unsubscribed refused meanwhile after r =
        tested unsubscribed refused meanwhile after user_id job r (open_test r.entries)

    -- `r` is the registry when the files have been read.
    unfoldable pub start_run :
        Str
        → Str
        → Str
        → Str
        → t.Db
        → Option AppError
        → Option AppError
        → (Registry → Registry)
        → (Registry → Registry)
        → Registry
        → Result RunJob × Registry
    unfolding prepare launch
    start_run job_id project_id user_id entrypoint d unsubscribed refused meanwhile after r =
        launch (prepare job_id project_id entrypoint d) user_id unsubscribed refused meanwhile after
          r
