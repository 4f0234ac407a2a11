-- ===== src/Persistence/Buffer/Timer.antt =====
-- persistence/buffer.ts: the byte limit and the timer.
use collab_ide.Base.{
  ℕ, ◌+◌, ◌<◌, ◌≡◌, refl, ◌≢◌, true, false, List, [], ◌∷◌, ◌++◌, length, leb, Bool-cases, inl, inr,
  arith,
}
use collab_ide.Persistence.Yjs.{Yjs, Bytes}
use collab_ide.Persistence.Buffer.{
  Buffer, attach, flush, on_update, push_update, flush_bytes, fire_timer, detach, write_batch,
  run_chain, run_next, Event, updated, flushed, fired, removed, wrote, step, run,
}

abbrev total : List Bytes → ℕ
total [] = 0
total (u ∷ us) = length u + total us

total-append : (us : List Bytes) (u : Bytes) → total (us ++ u ∷ []) ≡ total us + length u
total-append [] u = omega arith
total-append (v ∷ us) u = omega (arith, total-append us u)

-- While attached, something buffered has a timer set, and stays below the byte limit.
pub record Armed (b : Buffer) : Type 0 where
  pub counted : b.buffered_bytes ≡ total b.buffered
  pub armed : b.detached ≡ false → b.buffered ≢ [] → b.timer ≡ true
  pub bounded : total b.buffered < flush_bytes

-- No append has failed.
abbrev pub AllStored : (y : Yjs) → List (Event y) → Type 0
AllStored y [] = Unit
AllStored y (wrote stored ∷ es) = (stored ≡ true) × AllStored y es
AllStored y (e ∷ es) = AllStored y es

flush-Armed : (b : Buffer) → Armed (flush b)
unfolding flush
flush-Armed b = record { counted = refl; armed = λ _ h. absurd (h refl); bounded = omega arith }

push_update_counted :
    (u : Bytes) (b : Buffer)
    → b.buffered_bytes ≡ total b.buffered
    → (push_update u b).buffered_bytes ≡ total (push_update u b).buffered
unfolding push_update
push_update_counted u b h = omega (arith, total-append b.buffered u)

on_update-Armed : (u : Bytes) (b : Buffer) → Armed b → Armed (on_update u b)
unfolding on_update
on_update-Armed u b v = elim (Bool-cases b.detached) [
  | inl off ↦ simp off v
  | inr on ↦ elim (Bool-cases (leb flush_bytes (push_update u b).buffered_bytes)) [
    | inl full ↦ simp (on, full) (flush-Armed (push_update u b))
    | inr room ↦
        simp (on, room)
          (record {
            counted = push_update_counted u b v.counted;
            armed = λ _ _. refl;
            bounded = ground (arith, push_update_counted u b v.counted);
          })
  ]
]

run_chain-Armed :
    (y : Yjs) (chain : List (List Bytes)) (b : Buffer) → Armed b → Armed (run_chain y chain true b)
unfolding run_chain write_batch
run_chain-Armed y [] b v = v
run_chain-Armed y ([] ∷ rest) b v = record {
  counted = v.counted;
  armed = v.armed;
  bounded = v.bounded;
}
run_chain-Armed y ((u ∷ us) ∷ rest) b v = record {
  counted = v.counted;
  armed = v.armed;
  bounded = v.bounded;
}

fire_timer-Armed : (b : Buffer) → Armed b → Armed (fire_timer b)
unfolding fire_timer
fire_timer-Armed b v = elim (Bool-cases b.timer) [
  | inl e ↦ simp e (flush-Armed b)
  | inr e ↦ simp e v
]

detach-Armed : (b : Buffer) → Armed b → Armed (detach b)
unfolding detach
detach-Armed b v = record { counted = v.counted; armed = λ e. cc; bounded = v.bounded }

run-Armed_from :
    (y : Yjs) (b : Buffer) (es : List (Event y)) → Armed b → AllStored y es → Armed (run y b es)
unfolding run step run_next
run-Armed_from y b [] v h = v
run-Armed_from y b (updated u ∷ es) v h = run-Armed_from y _ es (on_update-Armed u b v) h
run-Armed_from y b (flushed ∷ es) v h = run-Armed_from y _ es (flush-Armed b) h
run-Armed_from y b (fired ∷ es) v h = run-Armed_from y _ es (fire_timer-Armed b v) h
run-Armed_from y b (removed ∷ es) v h = run-Armed_from y _ es (detach-Armed b v) h
run-Armed_from y b (wrote stored ∷ es) v (e, h) =
    run-Armed_from y (run_chain y b.chain stored b) es (rw e (run_chain-Armed y b.chain b v)) h

-- As long as no append has failed: whatever is buffered while attached has a timer set to write it,
-- stays below the byte limit, and the byte counter is its size.
pub run-Armed : (y : Yjs) (es : List (Event y)) → AllStored y es → Armed (run y attach es)
run-Armed y es h =
    run-Armed_from y attach es
      (record { counted = refl; armed = λ _ h. absurd (h refl); bounded = omega arith }) h

-- Once an append has failed, the batch is back in the buffer with no timer: it is written only when
-- another update arrives or somebody flushes.
pub failed_append_unarmed :
    (y : Yjs) (b : Buffer) (u : Bytes) (us : List Bytes) (rest : List (List Bytes))
    → b.chain ≡ (u ∷ us) ∷ rest
    → b.timer ≡ false
    → let b' = run_next y false b in
      (b'.buffered ≡ y.merge (u ∷ us) ∷ b.buffered)
      × (b'.timer ≡ false)
      × (b'.log ≡ b.log)
      × (fire_timer b' ≡ b')
unfolding run_next run_chain write_batch fire_timer
failed_append_unarmed y b u us rest e off = ground arith
