-- ===== src/Examples/Execution.antt =====
-- A run with one frame of output, and a registry that is full.
use collab_ide.Base.{
  ℕ, zero, suc, ◌+◌, List, ◌≤◌, ◌≡◌, refl, some, none, false, [], ◌∷◌, ◌++◌, length, arith, Str,
  ◌===◌,
}
use collab_ide.Shared.Languages.{RunFrame, output, exit, ExitFrame, finished, stdout}
use collab_ide.Execution.Registry.{
  RunEntry, Entries, get, is_job, open_test, open_settled, fresh_entry, receive, attach,
}
use collab_ide.Execution.Registry.Frames.{receive_all}
use collab_ide.Execution.Registry.Replay.{watch_running, full_buffer_drops_exit}
use collab_ide.Execution.Registry.Slots.{
  Call, tests, settles, attaches, closes, Slots, no_slots, call, call_all, AtOnce, call_all-bounded,
}

abbrev job : Str
job = b'j' ∷ []

abbrev entry : RunEntry
entry = fresh_entry job (b'p' ∷ []) (b'u' ∷ [])

abbrev done : ExitFrame
done = record {
  status = finished;
  exit_code = some 0;
  duration_ms = 9;
  truncated = false;
  message = none;
}

abbrev said_a : RunFrame
said_a = output stdout (b'a' ∷ [])

abbrev said_b : RunFrame
said_b = output stdout (b'b' ∷ [])

watch_running_example :
    let (s1, o1) = receive_all job ((said_a, 30) ∷ []) (entry ∷ []) in
    let (s2, o2, known) = attach job 7 s1 in
    let (s3, o3) = receive_all job ((said_b, 30) ∷ []) s2 in
    let (s4, o4) = receive job (some (exit done)) 90 s3 in
    (((o1 ++ o2) ++ o3) ++ o4 ≡ (7, said_a) ∷ (7, said_b) ∷ (7, exit done) ∷ [])
    × (get job s4 ≡ none)
unfolding get is_job ◌===◌
watch_running_example =
    watch_running job entry (entry ∷ []) ((said_a, 30) ∷ []) ((said_b, 30) ∷ []) done 90 7 refl refl
      refl refl refl (refl, tt) (refl, tt) (omega arith, tt)

-- One frame has filled the buffer.
abbrev full_entry : RunEntry
full_entry = record entry { buffered = said_a ∷ []; buffered_bytes = 1_000_000 }

exit_dropped :
    let (s1, o1) = receive job (some (exit done)) 90 (full_entry ∷ []) in
    let (s2, o2, known) = attach job 7 s1 in (o1 ++ o2 ≡ (7, said_a) ∷ []) × (get job s2 ≡ none)
unfolding get is_job ◌===◌
exit_dropped =
    full_buffer_drops_exit job full_entry (full_entry ∷ []) done 90 7 refl refl (omega arith)

-- One open after the other.
abbrev calls : List Call
calls = tests ∷ settles job (b'p' ∷ []) (b'u' ∷ []) none ∷ attaches job 7 ∷ closes job ∷ []

call_all-bounded_example : length (call_all no_slots calls).registry.entries ≤ 19 + 1
unfolding AtOnce call call_all open_test open_settled
call_all-bounded_example =
    call_all-bounded 1 calls (omega arith)
      (omega arith, (omega arith, (omega arith, (omega arith, omega arith))))

abbrev runs : ℕ → Entries
runs zero = []
runs (suc n) = fresh_entry ((200 + n) ∷ []) (b'p' ∷ []) (b'u' ∷ []) ∷ runs n

abbrev nineteen : Slots
nineteen = record { registry = record { entries = runs 19; strays = [] }; opening = 0 }

abbrev overlap : List Call
overlap =
    tests
    ∷ tests
    ∷ settles job (b'p' ∷ []) (b'u' ∷ []) none
    ∷ settles (b'h' ∷ []) (b'p' ∷ []) (b'u' ∷ []) none
    ∷ []

-- Two opens that overlap pass the test at 19 entries, and both are added.
overlapping_opens : length (call_all nineteen overlap).registry.entries ≡ 21
unfolding call_all call open_test open_settled
overlapping_opens = refl
