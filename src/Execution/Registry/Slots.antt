-- ===== src/Execution/Registry/Slots.antt =====
-- execution/registry.ts: the number of entries.
use collab_ide.Base.{
  ℕ, suc, ◌+◌, ◌-◌, ◌≤◌, ◌<◌, ◌≡◌, ◌⊎◌, inl, inr, refl, ap, ◌∙◌, Bool, Bool-cases, ◌==◌,
  if◌then◌else◌, AppError, true, false, Option, none, some, List, [], ◌∷◌, map, keep, length, Str,
  arith, Result, ok, err,
}
use collab_ide.Database.{update_row}
use collab_ide.Shared.Languages.{RunFrame, output, exit, ExitFrame}
use collab_ide.Execution.Registry.{
  RunEntry, Entries, get, remove, accept, finish, receive, receive_for, attach, attach_to, detach,
  close, close_all, Registry, open_test, open_settled, max_active_runs, too_many_runs, is_job,
}
use collab_ide.Execution.Registry.Replay.{accept-waiting, finish-waiting}

length-map_row : (f : RunEntry → RunEntry) (es : Entries) → length (map f es) ≡ length es
length-map_row f [] = refl
length-map_row f (e ∷ es) = ap suc (length-map_row f es)

length-keep-le : (p : RunEntry → Bool) (es : Entries) → length (keep p es) ≤ length es
length-keep-le p [] = omega arith
length-keep-le p (e ∷ es) = ground (arith, length-keep-le p es)

length-remove-le : (job_id : Str) (es : Entries) → length (remove job_id es) ≤ length es
unfolding remove
length-remove-le job_id es = length-keep-le _ es

length-finish-le :
    (frame : RunFrame) (e : RunEntry) (es : Entries) → length (finish frame e es) ≤ length es
unfolding finish
length-finish-le (output stream chunk) e es =
    omega (arith, length-map_row (update_row (is_job e.job_id) (λ _. e)) es)
length-finish-le (exit f) e es = ground (
  arith,
  length-remove-le e.job_id es,
  length-map_row
      (update_row (is_job e.job_id) (λ _. record e { terminal = true; subscribed = false })) es,
)

-- The calls that change the entries. An open is cut at its await: `tests` and `settles` may be apart.
pub data Call : Type 0 where
  tests : Call
  settles : Str → Str → Str → Option AppError → Call
  receives : Str → Option RunFrame → ℕ → Call
  attaches : Str → ℕ → Call
  detaches closes : Str → Call
  closes_all : Call

-- The registry, and the number of opens that have passed the test and wait for Redis.
pub record Slots : Type 0 where
  pub registry : Registry
  pub opening : ℕ

abbrev pub no_slots : Slots
no_slots = record { registry = record { entries = []; strays = [] }; opening = 0 }

abbrev with_entries : Entries → Slots → Slots
with_entries es s = record s { registry = record { entries = es; strays = s.registry.strays } }

abbrev tested : Result (Unit {0}) → Slots → Slots
tested (ok done) s = record s { opening = suc s.opening }
tested (err e) s = s

-- Redis only answers an open that waits for it.
unfoldable pub call : Slots → Call → Slots
call s tests = tested (open_test s.registry.entries) s
call s (settles job_id project_id user_id refused) = if s.opening == 0 then s else record s {
  registry = (open_settled refused job_id project_id user_id s.registry).1;
  opening = s.opening - 1;
}
call s (receives job_id frame size) =
    with_entries (receive job_id frame size s.registry.entries).0 s
call s (attaches job_id client) = with_entries (attach job_id client s.registry.entries).0 s
call s (detaches job_id) = with_entries (detach job_id s.registry.entries) s
call s (closes job_id) = with_entries (close job_id s.registry.entries) s
call s closes_all = with_entries (close_all s.registry.entries) s

unfoldable pub call_all : Slots → List Call → Slots
call_all s [] = s
call_all s (c ∷ cs) = call_all (call s c) cs

-- At no time more than `k` opens wait for Redis.
unfoldable pub AtOnce : ℕ → Slots → List Call → Type 0
AtOnce k s [] = s.opening ≤ k
AtOnce k s (c ∷ cs) = (s.opening ≤ k) × AtOnce k (call s c) cs

receive_for-bounded :
    (o : Option RunEntry) (frame : Option RunFrame) (size : ℕ) (es : Entries)
    → length (receive_for o frame size es).0 ≤ length es
unfolding receive_for
receive_for-bounded none frame size es = omega arith
receive_for-bounded (some e) none size es = omega arith
receive_for-bounded (some e) (some g) size es = length-finish-le g (accept e.sink g size e).0 es

attach_to-bounded :
    (o : Option RunEntry) (client : ℕ) (es : Entries) → length (attach_to o client es).0 ≤ length es
unfolding attach_to
attach_to-bounded none client es = omega arith
attach_to-bounded (some e) client es = ground (
  arith,
  length-remove-le e.job_id es,
  length-map_row
      (update_row (is_job e.job_id)
        (λ _. record e { sink = some client; buffered = []; buffered_bytes = 0 }))
      es,
)

ok_unit : (u : Unit {0}) → ◌≡◌ {A = Result (Unit {0})} (ok u) (ok tt)
ok_unit tt = refl

test-free : (es : Entries) → open_test es ≡ ok tt → length es < max_active_runs
unfolding open_test
test-free es e = ground arith

settled-length :
    (refused : Option AppError) (job_id project_id user_id : Str) (r : Registry)
    → length (open_settled refused job_id project_id user_id r).1.entries ≤ suc (length r.entries)
unfolding open_settled
settled-length none job_id project_id user_id r = omega arith
settled-length (some e) job_id project_id user_id r = omega arith

Result-cases : {A : Type 0} (r : Result A) → ((a : A) × (r ≡ ok a)) ⊎ ((x : AppError) × (r ≡ err x))
Result-cases (ok a) = inl (a, refl)
Result-cases (err x) = inr (x, refl)

abbrev Within : ℕ → Slots → Type 0
Within k s = length s.registry.entries + s.opening ≤ 19 + k

call-bounded :
    (k : ℕ) (s : Slots) (c : Call)
    → 1 ≤ k
    → Within k s
    → (call s c).opening ≤ k
    → Within k (call s c)
unfolding call receive attach detach close close_all
call-bounded k s tests one h most = elim (Result-cases (open_test s.registry.entries)) [
  | inl (tt_, e) ↦
      let free = test-free s.registry.entries (e ∙ ok_unit tt_) in
      let more : (call s tests).opening ≡ suc s.opening = rw e refl in
      rw e (omega (arith, free, more, most))
  | inr (x, e) ↦ rw e h
]
call-bounded k s (settles job_id project_id user_id refused) one h most =
    elim (Bool-cases (s.opening == 0)) [
      | inl e ↦ rw e h
      | inr e ↦
          let size = settled-length refused job_id project_id user_id s.registry in
          let some_opening : 1 ≤ s.opening = ground arith in rw e (omega arith)
    ]
call-bounded k s (receives job_id frame size) one h most =
    omega (arith, receive_for-bounded (get job_id s.registry.entries) frame size s.registry.entries)
call-bounded k s (attaches job_id client) one h most =
    omega (arith, attach_to-bounded (get job_id s.registry.entries) client s.registry.entries)
call-bounded k s (detaches job_id) one h most = omega (
  arith,
  length-map_row (update_row (is_job job_id) (λ e. record e { sink = none })) s.registry.entries,
)
call-bounded k s (closes job_id) one h most =
    omega (arith, length-remove-le job_id s.registry.entries)
call-bounded k s closes_all one h most = omega arith

AtOnce-now : (k : ℕ) (s : Slots) (cs : List Call) → AtOnce k s cs → s.opening ≤ k
unfolding AtOnce
AtOnce-now k s [] h = h
AtOnce-now k s (c ∷ cs) h = h.0

call_all-bounded_from :
    (k : ℕ) (s : Slots) (cs : List Call)
    → 1 ≤ k
    → Within k s
    → AtOnce k s cs
    → Within k (call_all s cs)
unfolding call_all AtOnce
call_all-bounded_from k s [] one h most = h
call_all-bounded_from k s (c ∷ cs) one h most =
    call_all-bounded_from k (call s c) cs one
      (call-bounded k s c one h (AtOnce-now k (call s c) cs most.1)) most.1

-- With at most `k` opens that wait for Redis at a time, in whatever order the calls and the answers of
-- Redis come, at most 19 + k entries exist: 20 where no two opens overlap.
pub call_all-bounded :
    (k : ℕ) (cs : List Call)
    → 1 ≤ k
    → AtOnce k no_slots cs
    → length (call_all no_slots cs).registry.entries ≤ 19 + k
call_all-bounded k cs one most =
    let all = call_all-bounded_from k no_slots cs one (omega arith) most in omega arith

-- A run that ends with nobody attached keeps its slot: in a full registry the next run is refused
-- as before.
pub ended_run_keeps_slot :
    (job_id : Str) (e : RunEntry) (es : Entries) (f : ExitFrame) (size : ℕ)
    → get job_id es ≡ some e
    → e.sink ≡ none
    → max_active_runs ≤ length es
    → open_test (receive job_id (some (exit f)) size es).0 ≡ err too_many_runs
unfolding receive open_test
ended_run_keeps_slot job_id e es f size found off full =
    let e' = (accept none (exit f) size e).0 in
    let (_, sink, _) = accept-waiting (exit f) size e in
    rw (found, receive, ap (λ s. accept s (exit f) size e) off, finish-waiting f e' es (sink ∙ off))
      (ground (
        arith,
        length-map_row
            (update_row (is_job e'.job_id) (λ _. record e' { terminal = true; subscribed = false }))
            es,
      ))
