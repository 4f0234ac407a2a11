-- ===== src/Persistence/Buffer/Lossless.antt =====
-- persistence/buffer.ts: the updates in the log, in the queue and in the buffer.
use collab_ide.Base.{
  ◌≡◌, refl, sym, ap, ◌∙◌, Bool, true, false, List, [], ◌∷◌, ◌++◌, append_assoc, append-nil, leb,
  if◌then◌else◌, Bool-cases, inl, inr,
}
use collab_ide.Persistence.Yjs.{Yjs, Bytes, apply_all, Merges, Commutes}
use collab_ide.Persistence.Buffer.{
  Buffer, attach, flush, on_update, push_update, flush_bytes, fire_timer, detach, write_batch,
  run_chain, run_next, Event, updated, flushed, fired, removed, wrote, step, run,
}

abbrev concat : List (List Bytes) → List Bytes
concat [] = []
concat (b ∷ bs) = b ++ concat bs

-- Everything that the buffer has been given: what is in the log, in the queue and in memory.
abbrev pub held : Buffer → List Bytes
held b = b.log ++ (concat b.chain ++ b.buffered)

apply_all-append :
    (y : Yjs) (d : y.Doc) (us vs : List Bytes)
    → apply_all y d (us ++ vs) ≡ apply_all y (apply_all y d us) vs
apply_all-append y d [] vs = refl
apply_all-append y d (u ∷ us) vs = apply_all-append y (y.apply d u) us vs

concat-append : (bs : List (List Bytes)) (b : List Bytes) → concat (bs ++ b ∷ []) ≡ concat bs ++ b
concat-append [] b = append-nil b
concat-append (c ∷ bs) b = ap (◌++◌ c) (concat-append bs b) ∙ sym (append_assoc c (concat bs) b)

flush-held : (b : Buffer) → held (flush b) ≡ held b
unfolding flush
flush-held b = ap (◌++◌ b.log) (append-nil _ ∙ concat-append b.chain b.buffered)

module _ (y : Yjs) (commutes : Commutes y) where
  -- An update may move past a list of others.
  apply-apply_all :
      (d : y.Doc) (u : Bytes) (us : List Bytes)
      → apply_all y (y.apply d u) us ≡ y.apply (apply_all y d us) u
  apply-apply_all d u [] = refl
  apply-apply_all d u (v ∷ us) =
      ap (λ e. apply_all y e us) (commutes d u v) ∙ apply-apply_all (y.apply d v) u us

  apply_all-swap :
      (d : y.Doc) (us vs : List Bytes)
      → apply_all y (apply_all y d us) vs ≡ apply_all y (apply_all y d vs) us
  apply_all-swap d [] vs = refl
  apply_all-swap d (u ∷ us) vs =
      apply_all-swap (y.apply d u) us vs ∙ ap (λ e. apply_all y e us) (apply-apply_all d u vs)

-- The updates that the buffer observes: those that arrive while it is attached.
pub seen : (y : Yjs) → Buffer → List (Event y) → List Bytes
seen y b [] = []
seen y b (updated u ∷ es) =
    let rest = seen y (step y b (updated u)) es in if b.detached then rest else u ∷ rest
seen y b (e ∷ es) = seen y (step y b e) es

module _ (y : Yjs) (merges : Merges y) (commutes : Commutes y) where
  abbrev doc : List Bytes → y.Doc
  doc us = apply_all y y.empty us

  doc-append : (us vs : List Bytes) → doc (us ++ vs) ≡ apply_all y (doc us) vs
  doc-append us vs = apply_all-append y y.empty us vs

  stored-doc :
      (log batch rest : List Bytes)
      → doc ((log ++ y.merge batch ∷ []) ++ rest) ≡ doc (log ++ (batch ++ rest))
  stored-doc log batch rest = rw (
    doc-append (log ++ y.merge batch ∷ []) rest,
    doc-append log (y.merge batch ∷ []),
    merges (doc log) batch,
    doc-append log (batch ++ rest),
    apply_all-append y (doc log) batch rest,
  )

  requeued-doc :
      (log batch rest buffered : List Bytes)
      → doc (log ++ (rest ++ y.merge batch ∷ buffered)) ≡ doc (log ++ ((batch ++ rest) ++ buffered))
  requeued-doc log batch rest buffered =
      rw
        (
          doc-append log (rest ++ y.merge batch ∷ buffered),
          apply_all-append y (doc log) rest (y.merge batch ∷ buffered),
          merges (apply_all y (doc log) rest) batch,
          doc-append log ((batch ++ rest) ++ buffered),
          apply_all-append y (doc log) (batch ++ rest) buffered,
          apply_all-append y (doc log) batch rest,
        )
        (ap (λ d. apply_all y d buffered) (apply_all-swap y commutes (doc log) rest batch))

  run_chain-doc :
      (chain : List (List Bytes)) (stored : Bool) (b : Buffer)
      → doc (held (run_chain y chain stored (record b { chain = chain })))
        ≡ doc (held (record b { chain = chain }))
  unfolding run_chain write_batch
  run_chain-doc [] stored b = refl
  run_chain-doc ([] ∷ rest) stored b = refl
  run_chain-doc ((u ∷ us) ∷ rest) true b =
      stored-doc b.log (u ∷ us) (concat rest ++ b.buffered)
      ∙ ap (λ r. doc (b.log ++ r)) (sym (append_assoc (u ∷ us) (concat rest) b.buffered))
  run_chain-doc ((u ∷ us) ∷ rest) false b = requeued-doc b.log (u ∷ us) (concat rest) b.buffered

  push_update-doc :
      (u : Bytes) (b : Buffer) → doc (held (push_update u b)) ≡ apply_all y (doc (held b)) (u ∷ [])
  unfolding push_update
  push_update-doc u b =
      ap doc (
        ap (◌++◌ b.log) (sym (append_assoc (concat b.chain) b.buffered (u ∷ [])))
        ∙ sym (append_assoc b.log (concat b.chain ++ b.buffered) (u ∷ [])))
      ∙ doc-append (held b) (u ∷ [])

  on_update-doc :
      (u : Bytes) (b : Buffer)
      → doc (held (on_update u b)) ≡ apply_all y (doc (held b)) (if b.detached then [] else u ∷ [])
  unfolding on_update
  on_update-doc u b = elim (Bool-cases b.detached) [
    | inl off ↦ simp off
    | inr on ↦ elim (Bool-cases (leb flush_bytes (push_update u b).buffered_bytes)) [
      | inl full ↦ simp (on, full) (ap doc (flush-held (push_update u b)) ∙ push_update-doc u b)
      | inr room ↦ simp (on, room) (push_update-doc u b)
    ]
  ]

  fire_timer-doc : (b : Buffer) → doc (held (fire_timer b)) ≡ doc (held b)
  unfolding fire_timer
  fire_timer-doc b = elim (Bool-cases b.timer) [
    | inl e ↦ simp e (ap doc (flush-held b))
    | inr e ↦ simp e
  ]

  run-doc :
      (b : Buffer) (es : List (Event y))
      → doc (held (run y b es)) ≡ apply_all y (doc (held b)) (seen y b es)
  unfolding run seen step detach run_next
  run-doc b [] = refl
  run-doc b (updated u ∷ es) =
      run-doc (on_update u b) es
      ∙ ap (λ d. apply_all y d (seen y (on_update u b) es)) (on_update-doc u b)
      ∙ observed b.detached
    where
      observed :
          (off : Bool)
          → apply_all y
              (apply_all y (doc (held b)) (if off then [] else u ∷ []))
              (seen y (on_update u b) es)
            ≡ apply_all y
                (doc (held b))
                (if off then seen y (on_update u b) es else u ∷ seen y (on_update u b) es)
      observed true = refl
      observed false = refl
  run-doc b (flushed ∷ es) =
      run-doc (flush b) es ∙ ap (λ d. apply_all y d (seen y (flush b) es)) (ap doc (flush-held b))
  run-doc b (fired ∷ es) =
      run-doc (fire_timer b) es
      ∙ ap (λ d. apply_all y d (seen y (fire_timer b) es)) (fire_timer-doc b)
  run-doc b (removed ∷ es) = run-doc (detach b) es
  run-doc b (wrote stored ∷ es) =
      run-doc (run_next y stored b) es
      ∙ ap (λ d. apply_all y d (seen y (run_next y stored b) es)) (run_chain-doc b.chain stored b)

-- Whatever updates, flushes, timers and answers of the database follow one another, the log, the queued batches and the buffer together replay to the document that saw every update in order, where merging and reordering updates are harmless.
pub run_lossless :
    (y : Yjs)
    → Merges y
    → Commutes y
    → (es : List (Event y))
    → apply_all y y.empty (held (run y attach es)) ≡ apply_all y y.empty (seen y attach es)
run_lossless y merges commutes es = run-doc y merges commutes attach es
