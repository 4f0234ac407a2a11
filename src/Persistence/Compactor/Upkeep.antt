-- ===== src/Persistence/Compactor/Upkeep.antt =====
-- persistence/compactor.ts: `maybeCompact`, which the write buffer calls after each append.
use collab_ide.Base.{
  ℕ, ◌-◌, ◌≤◌, ◌<◌, ◌≡◌, ◌⊎◌, refl, sym, ap, subst, ◌∙◌, inl, inr, Bool, true, false, Option, none,
  some, List, any, find, Str, leb, Bool-cases, arith,
}
use collab_ide.Database.Distinct.{any-keep-not}
use collab_ide.Persistence.Yjs.{Yjs, EncodesState}
use collab_ide.Persistence.DocStore.{
  UpdateRow, Tables, Store, CompactionCandidate, load, read_for_compaction, compact, count_updates,
  covered, of_doc, id_of, snapshot_of,
}
use collab_ide.Persistence.DocStore.Laws.{compact-lost, compact-Won, folded_row}
use collab_ide.Persistence.Compactor.{
  compact_after, compact_lag_ms, fold_candidate, after_compact, compact_candidate, maybe_compact,
}
use collab_ide.Persistence.Compactor.Folds.{replay, Undisturbed, replay-load-compact}

module _ (y : Yjs) (encodes : EncodesState y) (t : Tables) (doc_id : Str) (cutoff : ℕ)
    (read : Store t) where
  abbrev pub candidate : CompactionCandidate
  candidate = read_for_compaction t read doc_id cutoff

  -- The compaction up to `n` with the candidate that was read.
  abbrev pub attempt : ℕ → Store t → Option (Bool × Store t)
  attempt n s = compact t doc_id (fold_candidate y candidate) n candidate.expected_update_id s

  -- It lost, and nothing is written; or it won: no row up to `n` is left, and the snapshot holds them.
  abbrev pub Settled : ℕ → Store t → Store t → Type 0
  Settled n s s' =
      ((attempt n s ≡ some (false, s)) × (s' ≡ s))
      ⊎ ((attempt n s ≡ some (true, s'))
          × (any (covered doc_id n) (t.log.rows s'.log) ≡ false)
          × (snapshot_of t s' doc_id ≡ some (folded_row doc_id (fold_candidate y candidate) n)))

  -- If the compaction up to `n` wins, others have only appended since the candidate was read.
  abbrev pub Alone : List UpdateRow → Store t → Type 0
  Alone news s =
      (n : ℕ) (s' : Store t)
      → candidate.through_update_id ≡ some n
      → attempt n s ≡ some (true, s')
      → Undisturbed t doc_id cutoff n read s news

  won-Settled :
      (n : ℕ) (s s' : Store t) (news : List UpdateRow)
      → Undisturbed t doc_id cutoff n read s news
      → attempt n s ≡ some (true, s')
      → Settled n s s'
  unfolding read_for_compaction
  won-Settled n s s' news u e =
      let bytes = fold_candidate y candidate in
      let same = ap (λ ss. find (of_doc doc_id) (t.snapshots.rows ss)) u.snapshots in
      let won =
        compact-Won t doc_id bytes n s s'
          (subst (λ o. compact t doc_id bytes n (id_of o) s ≡ some (true, s')) same e) in
      inr (
        e,
        ap (any (covered doc_id n)) won.rows ∙ any-keep-not (covered doc_id n) (t.log.rows s.log),
        won.snapshot,
      )

  compacted :
      (n : ℕ) (s s' : Store t) (news : List UpdateRow) (o : Option (Bool × Store t))
      → candidate.through_update_id ≡ some n
      → Alone news s
      → attempt n s ≡ o
      → after_compact t o ≡ some s'
      → (replay y (load t s' doc_id) ≡ replay y (load t s doc_id)) × Settled n s s'
  compacted n s s' news none at alone e h = cc
  compacted n s s' news (some (true, w)) at alone e h =
      let same : w ≡ s' = ground arith in
      let e' : attempt n s ≡ some (true, s') = e ∙ ap (λ x. some (true, x)) same in
      let u = alone n s' at e' in
      (
        replay-load-compact y encodes t doc_id cutoff n read s s' news u e',
        won-Settled n s s' news u e',
      )
  compacted n s s' news (some (false, w)) at alone e h =
      let same : w ≡ s' = ground arith in
      let lost : s ≡ w = compact-lost t doc_id _ n _ s w e in
      let back : s' ≡ s = sym (lost ∙ same) in
      (
        ap (λ x. replay y (load t x doc_id)) back,
        inl (e ∙ ap (λ x. some (false, x)) (sym lost), back),
      )

  -- What is done with the candidate.
  abbrev pub Handled : Store t → Store t → Type 0
  Handled s s' =
      ((candidate.through_update_id ≡ none) × (s' ≡ s))
      ⊎ ((n : ℕ) × (candidate.through_update_id ≡ some n) × Settled n s s')

  handled :
      (s s' : Store t) (news : List UpdateRow) (through : Option ℕ)
      → candidate.through_update_id ≡ through
      → Alone news s
      → compact_candidate y t doc_id candidate through s ≡ some s'
      → (replay y (load t s' doc_id) ≡ replay y (load t s doc_id)) × Handled s s'
  unfolding compact_candidate
  handled s s' news none at alone e =
      let same : s' ≡ s = ground arith in
      (ap (λ x. replay y (load t x doc_id)) same, inl (at, same))
  handled s s' news (some n) at alone e =
      let (kept, settled) = compacted n s s' news (attempt n s) at alone refl e in
      (kept, inr (n, at, settled))

-- A call that does not throw leaves the document that a load yields as it is, where an encoded document is read back
-- and, if its compaction wins, others have only appended rows above the boundary since the candidate was read and the
-- rows up to the boundary are older than the cutoff. The log that was counted, the store that was read and the one that is
-- compacted may differ. Nothing is written if at most 200 rows were counted, or every row was too recent, or the
-- compaction lost; otherwise no row of the document up to the boundary is left, and the snapshot is the fold of the candidate.
pub replay-load-maybe_compact :
    (y : Yjs) (encodes : EncodesState y) (t : Tables) (doc_id : Str) (now : ℕ)
    (counted read s s' : Store t) (news : List UpdateRow)
    → Alone y encodes t doc_id (now - compact_lag_ms) read news s
    → maybe_compact y t doc_id now counted read s ≡ some s'
    → (replay y (load t s' doc_id) ≡ replay y (load t s doc_id))
      × (((count_updates t counted doc_id ≤ 200) × (s' ≡ s))
          ⊎ ((200 < count_updates t counted doc_id)
              × Handled y encodes t doc_id (now - compact_lag_ms) read s s'))
unfolding maybe_compact
replay-load-maybe_compact y encodes t doc_id now counted read s s' news alone =
    let c = read_for_compaction t read doc_id (now - compact_lag_ms) in
    elim (Bool-cases (leb (count_updates t counted doc_id) compact_after)) [
      | inl short ↦ simp short (λ e.
          let same : s' ≡ s = ground arith in
          (ap (λ x. replay y (load t x doc_id)) same, inl (ground arith, same)))
      | inr long ↦ simp long (λ e.
          let (kept, done) =
            handled y encodes t doc_id (now - compact_lag_ms) read s s' news c.through_update_id
              refl alone e in
          (kept, inr (ground arith, done)))
    ]
