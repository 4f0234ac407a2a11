-- ===== src/Execution/Registry/Frames.antt =====
-- Runs of frames, and what they do to an entry that nobody watches or that a client is attached to.
use collab_ide.Base.{
  ℕ, ◌+◌, ◌<◌, ◌≡◌, refl, sym, ap, subst, ◌∙◌, false, none, some, List, [], ◌∷◌, ◌++◌, append_assoc,
  append-nil, map, Str, ===_refl, ===_iff, arith,
}
use collab_ide.Shared.Languages.{RunFrame, output, exit, is_exit, max_output_bytes}
use collab_ide.Execution.Registry.{RunEntry, Entries, Output, is_job, get, put, accept, receive}

-- The frames of a run, each with the length of its JSON text.
abbrev pub Frames : Type 0
Frames = List (RunFrame × ℕ)

-- Every frame written to one client.
abbrev pub to_client : ℕ → List RunFrame → Output
to_client client = map (λ frame. (client, frame))

pub to_client-append :
    (client : ℕ) (xs ys : List RunFrame)
    → to_client client (xs ++ ys) ≡ to_client client xs ++ to_client client ys
to_client-append client [] ys = refl
to_client-append client (x ∷ xs) ys = ap (◌∷◌ (client, x)) (to_client-append client xs ys)

abbrev pub frames : Frames → List RunFrame
frames = map λ f. f.0

pub receive_all : Str → Frames → Entries → Entries × Output
receive_all job_id [] entries = (entries, [])
receive_all job_id ((frame, size) ∷ fs) entries =
    let (entries', out) = receive job_id (some frame) size entries in
    let (entries'', rest) = receive_all job_id fs entries' in (entries'', out ++ rest)

get-put :
    (e e' : RunEntry) (entries : Entries)
    → get e'.job_id entries ≡ some e
    → get e'.job_id (put e' entries) ≡ some e'
unfolding get is_job
get-put e e' [] h = cc
get-put e e' (x ∷ entries) h = ground (arith, get-put e e' entries, ===_refl e'.job_id)

pub get-job :
    (job_id : Str) (e : RunEntry) (entries : Entries)
    → get job_id entries ≡ some e
    → e.job_id ≡ job_id
unfolding get is_job
get-job job_id e [] h = cc
get-job job_id e (x ∷ entries) h = ground (arith, get-job job_id e entries, ===_iff x.job_id job_id)

pub get-put_at :
    (job_id : Str) (e e' : RunEntry) (entries : Entries)
    → get job_id entries ≡ some e
    → e'.job_id ≡ e.job_id
    → get job_id (put e' entries) ≡ some e'
get-put_at job_id e e' entries found same =
    let job = same ∙ get-job job_id e entries found in
    subst (λ j. get j (put e' entries) ≡ some e') job
      (get-put e e' entries (subst (λ j. get j entries ≡ some e) (sym job) found))

pub accept-room :
    (frame : RunFrame) (size : ℕ) (e : RunEntry)
    → e.buffered_bytes < max_output_bytes
    → accept none frame size e ≡ (
      record e { buffered = e.buffered ++ frame ∷ []; buffered_bytes = e.buffered_bytes + size },
      [],
    )
unfolding accept
accept-room frame size e h = ground arith

-- The buffer has room for each of the frames before it arrives.
abbrev pub Room : ℕ → Frames → Type 0
Room bytes [] = Unit
Room bytes ((frame, size) ∷ fs) = (bytes < max_output_bytes) × Room (bytes + size) fs

abbrev pub NoExit : Frames → Type 0
NoExit [] = Unit
NoExit ((frame, size) ∷ fs) = (is_exit frame ≡ false) × NoExit fs

receive-no_exit :
    (job_id : Str) (frame : RunFrame) (size : ℕ) (e : RunEntry) (entries : Entries)
    → get job_id entries ≡ some e
    → is_exit frame ≡ false
    → receive job_id (some frame) size entries
      ≡ (put (accept e.sink frame size e).0 entries, (accept e.sink frame size e).1)
unfolding receive
receive-no_exit job_id (output stream chunk) size e entries found h = rw (found, receive) refl
receive-no_exit job_id (exit f) size e entries found h = cc

-- What an entry is after the frames `fs` have arrived with nobody attached.
unfoldable pub loaded : RunEntry → Frames → RunEntry
loaded e [] = e
loaded e ((frame, size) ∷ fs) =
    loaded
      (record e { buffered = e.buffered ++ frame ∷ []; buffered_bytes = e.buffered_bytes + size })
      fs

pub loaded_fields :
    (e : RunEntry) (fs : Frames)
    → ((loaded e fs).buffered ≡ e.buffered ++ frames fs)
      × ((loaded e fs).sink ≡ e.sink)
      × ((loaded e fs).terminal ≡ e.terminal)
      × ((loaded e fs).job_id ≡ e.job_id)
unfolding loaded
loaded_fields e [] = (sym (append-nil e.buffered), refl, refl, refl)
loaded_fields e ((frame, size) ∷ fs) =
    let (b, s, t, j) =
      loaded_fields
        (record e { buffered = e.buffered ++ frame ∷ []; buffered_bytes = e.buffered_bytes + size })
        fs in
    (b ∙ append_assoc e.buffered (frame ∷ []) (frames fs), s, t, j)

-- With nobody attached the frames are buffered, and nothing is written.
pub receive_all-waiting :
    (job_id : Str) (fs : Frames) (e : RunEntry) (entries : Entries)
    → get job_id entries ≡ some e
    → e.sink ≡ none
    → NoExit fs
    → Room e.buffered_bytes fs
    → (get job_id (receive_all job_id fs entries).0 ≡ some (loaded e fs))
      × ((receive_all job_id fs entries).1 ≡ [])
unfolding receive_all loaded
receive_all-waiting job_id [] e entries found waiting quiet room = (found, refl)
receive_all-waiting job_id ((frame, size) ∷ fs) e entries found waiting (q, quiet) (r, room) =
    let e' : RunEntry = record e {
      buffered = e.buffered ++ frame ∷ [];
      buffered_bytes = e.buffered_bytes + size;
    } in
    let accepted : accept e.sink frame size e ≡ (e', []) =
      ap (λ s. accept s frame size e) waiting ∙ accept-room frame size e r in
    let there : get job_id (put e' entries) ≡ some e' = get-put_at job_id e e' entries found refl in
    rw (receive-no_exit job_id frame size e entries found q, accepted)
      (receive_all-waiting job_id fs e' (put e' entries) there waiting quiet room)

-- With a client attached each frame is written to it, and the entry does not change.
pub receive_all-attached :
    (job_id : Str) (fs : Frames) (e : RunEntry) (client : ℕ) (entries : Entries)
    → get job_id entries ≡ some e
    → e.sink ≡ some client
    → NoExit fs
    → (get job_id (receive_all job_id fs entries).0 ≡ some e)
      × ((receive_all job_id fs entries).1 ≡ to_client client (frames fs))
unfolding receive_all
receive_all-attached job_id [] e client entries found on quiet = (found, refl)
receive_all-attached job_id ((frame, size) ∷ fs) e client entries found on (q, quiet) =
    let accepted : accept e.sink frame size e ≡ (e, (client, frame) ∷ []) =
      ap (λ s. accept s frame size e) on ∙ unfold accept in refl in
    let there = get-put_at job_id e e entries found refl in
    let (rest, out) = receive_all-attached job_id fs e client (put e entries) there on quiet in
    rw (receive-no_exit job_id frame size e entries found q, accepted)
      (rest, ap (◌∷◌ (client, frame)) out)
