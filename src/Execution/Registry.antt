-- ===== src/Execution/Registry.antt =====
-- apps/server/src/modules/execution/registry.ts and the guard of routes.ts and stream.ts. The map
-- of entries is a list with one entry for each job; a sink is the number of the client whose
-- response it writes to, and what the sinks are given is the output of a call, in order. A frame
-- comes with `size`, the length of its JSON text. The Redis connection of an entry is `subscribed`.
pub mod Frames
pub mod Replay
pub mod Slots
use collab_ide.Base.{
  ℕ, suc, ◌+◌, ◌≡◌, Bool, true, false, not, ◌&&◌, Option, none, some, List, [], ◌∷◌, ◌++◌, map,
  keep, find, length, Str, text, ◌===◌, ltb, leb, ◌==◌, if◌then◌else◌, AppError, Result, ok, err,
  ◌>>=◌, ◌>>◌, throw_if, or_throw,
}
use collab_ide.Database.{update_row}
use collab_ide.Shared.Languages.{RunFrame, output, exit, is_exit, max_output_bytes}

pub record RunEntry : Type 0 where
  pub job_id : Str
  pub project_id : Str
  pub user_id : Str
  pub subscribed : Bool
  pub buffered : List RunFrame
  pub buffered_bytes : ℕ
  pub sink : Option ℕ
  pub terminal : Bool

abbrev pub max_active_runs : ℕ
max_active_runs = 20

abbrev pub Entries : Type 0
Entries = List RunEntry

abbrev pub Output : Type 0
Output = List (ℕ × RunFrame)

unfoldable pub is_job : Str → RunEntry → Bool
is_job job_id e = e.job_id === job_id

unfoldable pub get : Str → Entries → Option RunEntry
get job_id entries = find (is_job job_id) entries

-- `entries.delete`
unfoldable pub remove : Str → Entries → Entries
remove job_id entries = keep (λ e. not (is_job job_id e)) entries

abbrev pub put : RunEntry → Entries → Entries
put e entries = map (update_row (is_job e.job_id) (λ _. e)) entries

abbrev pub fresh_entry : Str → Str → Str → RunEntry
fresh_entry job_id project_id user_id = record {
  job_id = job_id;
  project_id = project_id;
  user_id = user_id;
  subscribed = true;
  buffered = [];
  buffered_bytes = 0;
  sink = none;
  terminal = false;
}

abbrev pub too_many_runs : AppError
too_many_runs = record {
  status = 429;
  code = text "TOO_MANY_RUNS";
  message = text "Too many runs are in progress (20). Wait for one to finish.";
}

-- `open` up to its await: the test.
unfoldable pub open_test : Entries → Result (Unit {0})
open_test entries = throw_if (leb max_active_runs (length entries)) too_many_runs

-- The entries, with the jobs whose connection and timer were made and have no entry.
pub record Registry : Type 0 where
  pub entries : Entries
  pub strays : List Str

-- `open` after the await of SUBSCRIBE, which may be rejected. The job id is a new UUID, so
-- `entries.set` adds an entry.
unfoldable pub open_settled :
    Option AppError → Str → Str → Str → Registry → Result (Unit {0}) × Registry
open_settled none job_id project_id user_id r =
    (ok tt, record r { entries = fresh_entry job_id project_id user_id ∷ r.entries })
open_settled (some e) job_id project_id user_id r = (err e, record r { strays = job_id ∷ r.strays })

-- What `receive` does with a frame for an entry, by whether a sink is attached.
unfoldable pub accept : Option ℕ → RunFrame → ℕ → RunEntry → RunEntry × Output
accept (some client) frame size e = (e, (client, frame) ∷ [])
accept none frame size e =
    if ltb e.buffered_bytes max_output_bytes
    then (
      record e { buffered = e.buffered ++ frame ∷ []; buffered_bytes = e.buffered_bytes + size },
      [],
    )
    else (e, [])

abbrev attached : RunEntry → Bool
attached e = elim e.sink [ none ↦ false | some c ↦ true ]

-- The last lines of `receive`: a terminal frame releases the subscriber, and drops an entry that a
-- client is attached to.
pub finish : RunFrame → RunEntry → Entries → Entries
finish (output stream chunk) e entries = put e entries
finish (exit f) e entries =
    if attached e
    then remove e.job_id entries
    else put (record e { terminal = true; subscribed = false }) entries

receive_for : Option RunEntry → Option RunFrame → ℕ → Entries → Entries × Output
receive_for none frame size entries = (entries, [])
receive_for (some e) none size entries = (entries, [])
receive_for (some e) (some frame) size entries =
    let (e', out) = accept e.sink frame size e in (finish frame e' entries, out)

-- `frame` is none where the payload does not parse.
pub receive : Str → Option RunFrame → ℕ → Entries → Entries × Output
unfolding receive_for finish
receive job_id frame size entries = receive_for (get job_id entries) frame size entries

attach_to : Option RunEntry → ℕ → Entries → Entries × Output × Bool
attach_to none client entries = (entries, [], false)
attach_to (some e) client entries = (
  if e.terminal
      then remove e.job_id entries
      else put (record e { sink = some client; buffered = []; buffered_bytes = 0 }) entries,
  map (λ frame. (client, frame)) e.buffered,
  true,
)

pub attach : Str → ℕ → Entries → Entries × Output × Bool
unfolding attach_to
attach job_id client entries = attach_to (get job_id entries) client entries

pub detach : Str → Entries → Entries
detach job_id entries = map (update_row (is_job job_id) (λ e. record e { sink = none })) entries

-- The time to live, a failed enqueue and shutdown.
unfoldable pub close : Str → Entries → Entries
close job_id entries = remove job_id entries

pub close_all : Entries → Entries
close_all entries = []

pub active_count : Entries → ℕ
active_count entries = length entries

abbrev pub run_not_found : AppError
run_not_found = record { status = 404; code = text "RUN_NOT_FOUND"; message = text "Run not found" }

-- The stream route: the job must belong to the project of the URL.
unfoldable pub stream_run : Str → Str → ℕ → Entries → Result (Entries × Output)
unfolding attach
stream_run project_id job_id client entries = do
  entry ← or_throw (get job_id entries) run_not_found
  throw_if (not (entry.project_id === project_id)) run_not_found
  let (entries', out, _) = attach job_id client entries
  ok (entries', out)
