-- ===== src/Execution/Registry/Replay.antt =====
-- execution/registry.ts: what a client is given of its run, by when it attaches.
use collab_ide.Base.{
  ℕ, ◌+◌, ◌≤◌, ◌<◌, ◌≡◌, refl, sym, ap, subst, ◌∙◌, true, false, none, some, [], ◌∷◌, ◌++◌,
  append_assoc, Str, if◌then◌else◌, arith,
}
use collab_ide.Shared.Languages.{RunFrame, exit, ExitFrame, max_output_bytes}
use collab_ide.Execution.Registry.{
  RunEntry, Entries, get, remove, put, accept, finish, receive, attach, attach_to,
}
use collab_ide.Execution.Registry.Frames.{
  Frames, to_client, to_client-append, frames, receive_all, get-job, get-put_at, accept-room, Room,
  NoExit, loaded, loaded_fields, receive_all-waiting, receive_all-attached,
}

get-remove : (job_id : Str) (entries : Entries) → get job_id (remove job_id entries) ≡ none
unfolding get remove
get-remove job_id [] = refl
get-remove job_id (x ∷ entries) = ground (arith, get-remove job_id entries)

get-remove_at :
    (job_id : Str) (e : RunEntry) (entries : Entries)
    → get job_id entries ≡ some e
    → get job_id (remove e.job_id entries) ≡ none
get-remove_at job_id e entries found =
    subst (λ j. get j (remove e.job_id entries) ≡ none) (get-job job_id e entries found)
      (get-remove e.job_id entries)

finish-attached :
    (f : ExitFrame) (e : RunEntry) (client : ℕ) (entries : Entries)
    → e.sink ≡ some client
    → finish (exit f) e entries ≡ remove e.job_id entries
unfolding finish
finish-attached f e client entries on = ground arith

pub finish-waiting :
    (f : ExitFrame) (e : RunEntry) (entries : Entries)
    → e.sink ≡ none
    → finish (exit f) e entries ≡ put (record e { terminal = true; subscribed = false }) entries
unfolding finish
finish-waiting f e entries off = ground arith

-- The last frame, for a client that is attached: it is written, and the entry goes.
receive-exit_attached :
    (job_id : Str) (f : ExitFrame) (size : ℕ) (e : RunEntry) (client : ℕ) (entries : Entries)
    → get job_id entries ≡ some e
    → e.sink ≡ some client
    → (get job_id (receive job_id (some (exit f)) size entries).0 ≡ none)
      × ((receive job_id (some (exit f)) size entries).1 ≡ (client, exit f) ∷ [])
unfolding receive
receive-exit_attached job_id f size e client entries found on =
    let accepted : accept e.sink (exit f) size e ≡ (e, (client, exit f) ∷ []) =
      ap (λ s. accept s (exit f) size e) on ∙ unfold accept in refl in
    rw (found, receive, accepted, finish-attached f e client entries on)
      (get-remove_at job_id e entries found, refl)

accept-full :
    (frame : RunFrame) (size : ℕ) (e : RunEntry)
    → max_output_bytes ≤ e.buffered_bytes
    → accept none frame size e ≡ (e, [])
unfolding accept
accept-full frame size e h = ground arith

Room-last :
    (e : RunEntry) (fs : Frames) (frame : RunFrame) (size : ℕ)
    → Room e.buffered_bytes (fs ++ (frame, size) ∷ [])
    → Room e.buffered_bytes fs × ((loaded e fs).buffered_bytes < max_output_bytes)
unfolding loaded
Room-last e [] frame size h = (tt, h.0)
Room-last e ((g, k) ∷ fs) frame size (h, hs) =
    let (room, last) =
      Room-last
        (record e { buffered = e.buffered ++ g ∷ []; buffered_bytes = e.buffered_bytes + k }) fs
        frame size hs in
    ((h, room), last)

-- The entry as an attached client leaves it.
abbrev shown : RunEntry → ℕ → RunEntry
shown e client = record e { sink = some client; buffered = []; buffered_bytes = 0 }

-- A client that attaches to a run is given what was buffered, then each frame as it arrives.
attach-found :
    (job_id : Str) (e : RunEntry) (client : ℕ) (entries : Entries)
    → get job_id entries ≡ some e
    → ((attach job_id client entries).1 ≡ to_client client e.buffered)
      × (e.terminal ≡ true → get job_id (attach job_id client entries).0 ≡ none)
      × (e.terminal ≡ false → get job_id (attach job_id client entries).0 ≡ some (shown e client))
unfolding attach
attach-found job_id e client entries found =
    rw (found, attach_to)
      (
        refl,
        λ h.
            ap
              (λ b.
                get job_id (if b then remove e.job_id entries else put (shown e client) entries))
              h
            ∙ get-remove_at job_id e entries found,
        λ h.
            ap
              (λ b.
                get job_id (if b then remove e.job_id entries else put (shown e client) entries))
              h
            ∙ get-put_at job_id e (shown e client) entries found refl,
      )

pub accept-waiting :
    (frame : RunFrame) (size : ℕ) (e : RunEntry)
    → ((accept none frame size e).1 ≡ [])
      × ((accept none frame size e).0.sink ≡ e.sink)
      × ((accept none frame size e).0.job_id ≡ e.job_id)
unfolding accept
accept-waiting frame size e = ground arith

-- The last frame, with nobody attached: the entry stays, marked terminal; the frame joins the buffer
-- if there is room.
receive-exit_waiting :
    (job_id : Str) (f : ExitFrame) (size : ℕ) (e : RunEntry) (entries : Entries)
    → get job_id entries ≡ some e
    → e.sink ≡ none
    → ((receive job_id (some (exit f)) size entries).1 ≡ [])
      × (get job_id (receive job_id (some (exit f)) size entries).0
          ≡ some (record (accept none (exit f) size e).0 { terminal = true; subscribed = false }))
unfolding receive
receive-exit_waiting job_id f size e entries found off =
    let (out, sink, job) = accept-waiting (exit f) size e in
    let e' = (accept none (exit f) size e).0 in
    let ended : RunEntry = record e' { terminal = true; subscribed = false } in
    rw
      (
        found,
        receive,
        ap (λ s. accept s (exit f) size e) off,
        finish-waiting f e' entries (sink ∙ off),
      )
      (out, get-put_at job_id e ended entries found job)

-- A run is opened, `early` arrives, a client attaches, `late` arrives and the run exits: the client is given exactly these frames in order, and the entry goes with the last of them; where the buffer has room for each early frame and the exit frame is the only one.
pub watch_running :
    (job_id : Str) (e : RunEntry) (entries : Entries) (early late : Frames) (f : ExitFrame)
    (size client : ℕ)
    → get job_id entries ≡ some e
    → e.sink ≡ none
    → e.buffered ≡ []
    → e.buffered_bytes ≡ 0
    → e.terminal ≡ false
    → NoExit early
    → NoExit late
    → Room 0 early
    → let (s1, o1) = receive_all job_id early entries in
      let (s2, o2, known) = attach job_id client s1 in
      let (s3, o3) = receive_all job_id late s2 in
      let (s4, o4) = receive job_id (some (exit f)) size s3 in
      (((o1 ++ o2) ++ o3) ++ o4 ≡ to_client client ((frames early ++ frames late) ++ exit f ∷ []))
      × (get job_id s4 ≡ none)
watch_running job_id e entries early late f size client found off empty zero open_ quiet1 quiet2
      room =
    let (there, nothing) =
      receive_all-waiting job_id early e entries found off quiet1 (rw zero room) in
    let (held, _, going, _) = loaded_fields e early in
    let s1 = (receive_all job_id early entries).0 in
    let (replayed, _, seen) = attach-found job_id (loaded e early) client s1 there in
    let s2 = (attach job_id client s1).0 in
    let e2 = shown (loaded e early) client in
    let (still, streamed) =
      receive_all-attached job_id late e2 client s2 (seen (going ∙ open_)) refl quiet2 in
    let s3 = (receive_all job_id late s2).0 in
    let (gone, last) = receive-exit_attached job_id f size e2 client s3 still refl in
    (
      rw (nothing, replayed, held, empty, streamed, last)
          (simp (to_client-append client, append_assoc)),
      gone,
    )

-- A run is opened, its frames arrive and it exits, all before a client attaches: the client is then given exactly these frames in order, and the entry goes; where the buffer has room for each of them and the exit frame is the only one.
pub watch_finished :
    (job_id : Str) (e : RunEntry) (entries : Entries) (early : Frames) (f : ExitFrame)
    (size client : ℕ)
    → get job_id entries ≡ some e
    → e.sink ≡ none
    → e.buffered ≡ []
    → e.buffered_bytes ≡ 0
    → NoExit early
    → Room 0 (early ++ (exit f, size) ∷ [])
    → let (s1, o1) = receive_all job_id early entries in
      let (s2, o2) = receive job_id (some (exit f)) size s1 in
      let (s3, o3, known) = attach job_id client s2 in
      ((o1 ++ o2) ++ o3 ≡ to_client client (frames early ++ exit f ∷ [])) × (get job_id s3 ≡ none)
watch_finished job_id e entries early f size client found off empty zero quiet room =
    let (roomy, last) =
      Room-last e early (exit f) size
        (subst (λ n. Room n (early ++ (exit f, size) ∷ [])) (sym zero) room) in
    let (there, nothing) = receive_all-waiting job_id early e entries found off quiet roomy in
    let (held, waiting, _, _) = loaded_fields e early in
    let s1 = (receive_all job_id early entries).0 in
    let full = loaded e early in
    let accepted = accept-room (exit f) size full last in
    let (silent, ended) = receive-exit_waiting job_id f size full s1 there (waiting ∙ off) in
    let s2 = (receive job_id (some (exit f)) size s1).0 in
    let (replayed, drained, _) = attach-found job_id _ client s2 ended in
    (rw (nothing, silent, replayed, accepted, held, empty), drained refl)

-- The buffer is full when the run exits, and nobody is attached: the exit frame is dropped, so the
-- client that attaches afterwards is given the buffered frames alone, and the entry goes.
pub full_buffer_drops_exit :
    (job_id : Str) (e : RunEntry) (entries : Entries) (f : ExitFrame) (size client : ℕ)
    → get job_id entries ≡ some e
    → e.sink ≡ none
    → max_output_bytes ≤ e.buffered_bytes
    → let (s1, o1) = receive job_id (some (exit f)) size entries in
      let (s2, o2, known) = attach job_id client s1 in
      (o1 ++ o2 ≡ to_client client e.buffered) × (get job_id s2 ≡ none)
full_buffer_drops_exit job_id e entries f size client found off full =
    let (silent, ended) = receive-exit_waiting job_id f size e entries found off in
    let s1 = (receive job_id (some (exit f)) size entries).0 in
    let (replayed, drained, _) = attach-found job_id _ client s1 ended in
    (rw (silent, replayed, accept-full (exit f) size e full), drained refl)
