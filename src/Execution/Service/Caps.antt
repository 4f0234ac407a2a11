-- ===== src/Execution/Service/Caps.antt =====
-- execution/service.ts: what a started run satisfies, and what a refused one leaves behind.
use collab_ide.Base.{
  ℕ, ◌≤◌, ◌≡◌, ◌⊎◌, inl, inr, refl, ap, subst, ◌∙◌, Bool, true, false, Option, none, some, List, [],
  ◌∷◌, any, find, length, Str, ◌===◌, AppError, Result, ok, err, or_throw, bind_ok, then_ok,
  create_ok, arith,
}
use collab_ide.Database.{Table}
use collab_ide.Database.Distinct.{any-keep-not}
use collab_ide.Files.Rows.{FileRow, same_path}
use collab_ide.Files.Service.{file_not_found}
use collab_ide.Shared.Languages.{
  RunFile, RunJob, language_for_path, max_run_files, max_run_input_bytes,
}
use collab_ide.Execution.Registry.{
  RunEntry, Entries, Registry, is_job, open_test, open_settled, close, remove, fresh_entry,
}
use collab_ide.Execution.Service.{
  enqueued, opened, tested, total_bytes, assert_within_caps, list_files_for_run, prepare, launch,
  start_run, language_unsupported,
}

keep_is_job : (job_id : Str) (es : Entries) → any (is_job job_id) (remove job_id es) ≡ false
unfolding remove
keep_is_job job_id es = any-keep-not (is_job job_id) es

remove_other :
    (job_id : Str) (es : Entries) → any (is_job job_id) es ≡ false → remove job_id es ≡ es
unfolding remove
remove_other job_id [] h = refl
remove_other job_id (e ∷ es) h = ground (arith, remove_other job_id es)

ok_inj : {A : Type 0} (a b : A) → ok a ≡ ok b → a ≡ b
ok_inj a b e = ground arith

any-find :
    (q : RunFile → Bool) (fs : List RunFile) (f : RunFile) → find q fs ≡ some f → any q fs ≡ true
any-find q [] f h = cc
any-find q (g ∷ fs) f h = ground (arith, any-find q fs f)

module _ (lower : Str → Str) (byte_length : Str → ℕ) (show : ℕ → Str)
    (t : Table FileRow same_path) where
  prepare-job :
      (job_id project_id entrypoint : Str) (d : t.Db) (job : RunJob)
      → prepare lower byte_length show t job_id project_id entrypoint d ≡ ok job
      → (job.job_id ≡ job_id)
        × (language_for_path lower job.entrypoint ≡ some job.language_id)
        × (job.entrypoint ≡ entrypoint)
        × (job.files ≡ list_files_for_run lower byte_length show t project_id d)
        × (any (λ f. f.path === job.entrypoint) job.files ≡ true)
        × (assert_within_caps lower byte_length show job.files ≡ ok tt)
  unfolding prepare
  prepare-job job_id project_id entrypoint d job h =
      let files = list_files_for_run lower byte_length show t project_id d in
      let (l, lang, h1) =
        bind_ok (or_throw (language_for_path lower entrypoint) language_unsupported) _ job h in
      let (f, target, h2) =
        bind_ok (or_throw (find (λ f. f.path === entrypoint) files) file_not_found) _ job h1 in
      let (caps, made) = then_ok (assert_within_caps lower byte_length show files) _ job h2 in
      let language = create_ok (language_for_path lower entrypoint) language_unsupported l lang in
      let there =
        any-find (λ f. f.path === entrypoint) files f
          (create_ok (find (λ f. f.path === entrypoint) files) file_not_found f target) in
      let built : RunJob = record {
        job_id = job_id;
        project_id = project_id;
        language_id = l;
        entrypoint = entrypoint;
        files = files;
      } in
      let same : built ≡ job = ok_inj built job made in
      subst
        (λ j.
          (j.job_id ≡ job_id)
          × (language_for_path lower j.entrypoint ≡ some j.language_id)
          × (j.entrypoint ≡ entrypoint)
          × (j.files ≡ files)
          × (any (λ g. g.path === j.entrypoint) j.files ≡ true)
          × (assert_within_caps lower byte_length show j.files ≡ ok tt))
        same (refl, language, refl, refl, there, caps)

  -- What a failed start has left: the registry of its last await, with nothing of the job in it, but for a
  -- connection and a timer if Redis has rejected the SUBSCRIBE.
  abbrev pub Undone :
      Str
      → Option AppError
      → Option AppError
      → (Registry → Registry)
      → (Registry → Registry)
      → Registry
      → AppError
      → Registry
      → Type 0
  Undone job_id unsubscribed refused meanwhile after r e r' =
      (any (is_job job_id) r'.entries ≡ false)
      × ((r' ≡ r)
          ⊎ (((unsubscribed ≡ some e)
                × (r'.entries ≡ (meanwhile r).entries)
                × (r'.strays ≡ job_id ∷ (meanwhile r).strays))
              ⊎ ((unsubscribed ≡ none)
                  × (refused ≡ some e)
                  × ((entry : RunEntry) × (entry.job_id ≡ job_id)
                      × (let m = meanwhile r in
                          let last = after (record m { entries = entry ∷ m.entries }) in
                          (r'.entries ≡ remove job_id last.entries) × (r'.strays ≡ last.strays))))))

  tested-Undone :
      (unsubscribed refused : Option AppError) (meanwhile after : Registry → Registry)
      (user_id : Str) (job : RunJob) (r r' : Registry) (e : AppError) (o : Result (Unit {0}))
      → any (is_job job.job_id) r.entries ≡ false
      → any (is_job job.job_id) (meanwhile r).entries ≡ false
      → tested lower byte_length show t unsubscribed refused meanwhile after user_id job r o
        ≡ (err e, r')
      → Undone job.job_id unsubscribed refused meanwhile after r e r'
  unfolding opened enqueued open_settled close
  tested-Undone unsubscribed refused meanwhile after user_id job r r' e (err x) new newer h =
      let same : r ≡ r' = ap (λ q. q.1) h in rw (← same) (new, inl refl)
  tested-Undone (some x) refused meanwhile after user_id job r r' e (ok done) new newer h =
      let thrown : ◌≡◌ {A = Result RunJob} (err x) (err e) = ap (λ q. q.0) h in
      let left = ap (λ q. q.1) h in
      let why : x ≡ e = ground arith in rw (← left) (newer, inr (inl (ap some why, refl, refl)))
  tested-Undone none (some x) meanwhile after user_id job r r' e (ok done) new newer h =
      let thrown : ◌≡◌ {A = Result RunJob} (err x) (err e) = ap (λ q. q.0) h in
      let left = ap (λ q. q.1) h in
      let why : x ≡ e = ground arith in
      let m = meanwhile r in
      let entry = fresh_entry job.job_id job.project_id user_id in
      let last = after (record m { entries = entry ∷ m.entries }) in
      rw (← left) (
        keep_is_job job.job_id last.entries,
        inr (inr (refl, ap some why, (entry, refl, (refl, refl)))),
      )
  tested-Undone none none meanwhile after user_id job r r' e (ok done) new newer h =
      let thrown : ◌≡◌ {A = Result RunJob} (ok job) (err e) = ap (λ q. q.0) h in
      absurd (ground arith)

  launch-Undone :
      (job_id : Str) (p : Result RunJob) (user_id : Str) (unsubscribed refused : Option AppError)
      (meanwhile after : Registry → Registry) (r r' : Registry) (e : AppError)
      → ((job : RunJob) → p ≡ ok job → job.job_id ≡ job_id)
      → any (is_job job_id) r.entries ≡ false
      → any (is_job job_id) (meanwhile r).entries ≡ false
      → launch lower byte_length show t p user_id unsubscribed refused meanwhile after r
        ≡ (err e, r')
      → Undone job_id unsubscribed refused meanwhile after r e r'
  unfolding launch
  launch-Undone job_id (err x) user_id unsubscribed refused meanwhile after r r' e named new newer
        h =
      let same : r ≡ r' = ap (λ q. q.1) h in rw (← same) (new, inl refl)
  launch-Undone job_id (ok job) user_id unsubscribed refused meanwhile after r r' e named new newer
        h =
      let same = named job refl in
      subst (λ j. Undone j unsubscribed refused meanwhile after r e r') same
        (tested-Undone unsubscribed refused meanwhile after user_id job r r' e (open_test r.entries)
          (ap (λ j. any (is_job j) r.entries) same ∙ new)
          (ap (λ j. any (is_job j) (meanwhile r).entries) same ∙ newer) h)

  -- Whatever refuses a run (a check, the test of the number of runs, Redis or the queue), and whatever other calls
  -- do while Redis and the queue are awaited, nothing of the job is left in the registry, where its id is new. If Redis
  -- rejects the SUBSCRIBE, the other entries are as they were then and a connection with its timer is left behind; if the
  -- queue refuses, the entry was there and is taken out of what the other calls left; else nothing has changed.
  pub start_run-err :
      (job_id project_id user_id entrypoint : Str) (d : t.Db)
      (unsubscribed refused : Option AppError) (meanwhile after : Registry → Registry)
      (r r' : Registry) (e : AppError)
      → any (is_job job_id) r.entries ≡ false
      → any (is_job job_id) (meanwhile r).entries ≡ false
      → start_run lower byte_length show t job_id project_id user_id entrypoint d unsubscribed
          refused meanwhile after r
        ≡ (err e, r')
      → Undone job_id unsubscribed refused meanwhile after r e r'
  unfolding start_run
  start_run-err job_id project_id user_id entrypoint d unsubscribed refused meanwhile after r r' e
        new newer =
      launch-Undone job_id (prepare lower byte_length show t job_id project_id entrypoint d) user_id
        unsubscribed refused meanwhile after r r' e
        (λ job made. (prepare-job job_id project_id entrypoint d job made).0) new newer

  -- A run that starts has a supported language, that of its entry point, which is one of the files sent; the files are those of the project, within both caps.
  pub prepare-ok :
      (job_id project_id entrypoint : Str) (d : t.Db) (job : RunJob)
      → prepare lower byte_length show t job_id project_id entrypoint d ≡ ok job
      → (language_for_path lower job.entrypoint ≡ some job.language_id)
        × (job.entrypoint ≡ entrypoint)
        × (job.files ≡ list_files_for_run lower byte_length show t project_id d)
        × (any (λ f. f.path === job.entrypoint) job.files ≡ true)
        × (length job.files ≤ max_run_files)
        × (total_bytes lower byte_length show job.files ≤ max_run_input_bytes)
  unfolding assert_within_caps
  prepare-ok job_id project_id entrypoint d job h =
      let (_, language, entry, files, there, caps) =
        prepare-job job_id project_id entrypoint d job h in
      (language, entry, files, there, ground arith, ground arith)
