-- ===== src/Examples/Service.antt =====
-- A project with the file a.py, which is run.
use collab_ide.Base.{
  ℕ, ◌≡◌, refl, false, none, some, List, [], ◌∷◌, ok, err, length, Str, ◌===◌, text, last_index_of,
}
use collab_ide.Database.{Table}
use collab_ide.Database.Memory.{memory}
use collab_ide.Files.Rows.{FileRow, same_path}
use collab_ide.Shared.Languages.{
  RunJob, python, language_for_path, extension_of, extension_to_id, languages,
}
use collab_ide.Execution.Registry.{
  Registry, fresh_entry, close, remove, is_job, open_test, open_settled, too_many_runs,
}
use collab_ide.Execution.Service.{
  prepare, start_run, launch, enqueued, opened, assert_within_caps, list_files_for_run,
}
use collab_ide.Execution.Service.Caps.{Undone, start_run-err}

abbrev table : Table FileRow same_path
table = memory FileRow same_path

abbrev same_case : Str → Str
same_case s = s

abbrev no_digits : ℕ → Str
no_digits n = []

abbrev project : Str
project = b'p' ∷ []

abbrev a_py : Str
a_py = b'a' ∷ b'.' ∷ b'p' ∷ b'y' ∷ []

abbrev rows : List FileRow
rows =
    record { id = []; project_id = project; path = a_py; content = b'1' ∷ []; is_dir = false } ∷ []

abbrev job : RunJob
job = record {
  job_id = b'j' ∷ [];
  project_id = project;
  language_id = python;
  entrypoint = a_py;
  files = record { path = a_py; content = b'1' ∷ [] } ∷ [];
}

prepared : prepare same_case length no_digits table (b'j' ∷ []) project a_py rows ≡ ok job
unfolding prepare language_for_path extension_of extension_to_id languages last_index_of
    list_files_for_run assert_within_caps text ◌===◌
prepared = refl

abbrev others : Registry
others = record { entries = fresh_entry (b'k' ∷ []) project (b'u' ∷ []) ∷ []; strays = [] }

abbrev nothing : Registry → Registry
nothing r = r

-- The queue is down, and the other run ends while it is awaited.
abbrev ends_other : Registry → Registry
ends_other r = record r { entries = remove (b'k' ∷ []) r.entries }

refused_lem :
    start_run same_case length no_digits table
      (b'j' ∷ [])
      project
      (b'u' ∷ [])
      a_py
      rows
      none
      (some too_many_runs)
      nothing
      ends_other
      others
    ≡ (err too_many_runs, record { entries = []; strays = [] })
unfolding start_run launch opened enqueued prepare language_for_path extension_of extension_to_id
    languages last_index_of list_files_for_run assert_within_caps text ◌===◌ open_test open_settled
    close remove is_job
refused_lem = refl

-- Redis rejects the SUBSCRIBE: the connection of the job is left.
unsubscribed_lem :
    start_run same_case length no_digits table
      (b'j' ∷ [])
      project
      (b'u' ∷ [])
      a_py
      rows
      (some too_many_runs)
      none
      nothing
      nothing
      others
    ≡ (err too_many_runs, record others { strays = (b'j' ∷ []) ∷ [] })
unfolding start_run launch opened enqueued prepare language_for_path extension_of extension_to_id
    languages last_index_of list_files_for_run assert_within_caps text ◌===◌ open_test open_settled
    close remove is_job
unsubscribed_lem = refl

start_run-err_example :
    Undone same_case length no_digits table
      (b'j' ∷ [])
      none
      (some too_many_runs)
      nothing
      ends_other
      others
      too_many_runs
      (record { entries = []; strays = [] })
unfolding is_job ◌===◌
start_run-err_example =
    start_run-err same_case length no_digits table (b'j' ∷ []) project (b'u' ∷ []) a_py rows none
      (some too_many_runs) nothing ends_other others (record { entries = []; strays = [] })
      too_many_runs refl refl refused_lem
