-- ===== src/Persistence/Compactor/Folds.antt =====
-- persistence/compactor.ts: the document that a load yields before and after a compaction.
use collab_ide.Base.{
  ℕ, ◌≤◌, ◌<◌, ◌≡◌, refl, ap, subst, ◌≡⟨◌⟩◌, ◌∎, append-nil, Bool, true, false, not, Option, some,
  List, [], ◌∷◌, ◌++◌, map, keep, keep-append, find, All, Str, ◌===◌, ltb, leb, arith,
}
use collab_ide.Persistence.Yjs.{Yjs, Bytes, apply_all, EncodesState}
use collab_ide.Persistence.DocStore.{
  UpdateRow, SnapshotRow, Tables, Store, LoadedDoc, order_by_id, last_id, folded_through, bytes_of,
  id_of, of_doc, after, eligible, covered, snapshot_of, load, read_for_compaction, compact,
}
use collab_ide.Persistence.DocStore.Order.{order_by_id-split, last_id-keep}
use collab_ide.Persistence.DocStore.Laws.{compact-Won}
use collab_ide.Persistence.Compactor.{apply_snapshot, fold_candidate}

-- What `createRoom` builds from a loaded document.
abbrev pub replay : (y : Yjs) → LoadedDoc → y.Doc
replay y l = apply_all y (apply_snapshot y l.snapshot) l.updates

apply_all-append :
    (y : Yjs) (d : y.Doc) (us vs : List Bytes)
    → apply_all y d (us ++ vs) ≡ apply_all y (apply_all y d us) vs
apply_all-append y d [] vs = refl
apply_all-append y d (u ∷ us) vs = apply_all-append y (y.apply d u) us vs

abbrev pub updates_of : List UpdateRow → List Bytes
updates_of = map λ r. r.update

updates_of-append :
    (rs ss : List UpdateRow) → updates_of (rs ++ ss) ≡ updates_of rs ++ updates_of ss
updates_of-append [] ss = refl
updates_of-append (r ∷ rs) ss = ap (◌∷◌ r.update) (updates_of-append rs ss)

-- The rows up to the boundary are those that the candidate holds.
eligible-split :
    (doc_id : Str) (through cutoff n : ℕ) (rows : List UpdateRow)
    → All (λ r. eligible doc_id through cutoff r ≡ true → r.id ≤ n) rows
    → All (λ r. after doc_id through r ≡ true → r.id ≤ n → r.created_at < cutoff) rows
    → keep (λ r. leb r.id n) (keep (after doc_id through) rows)
      ≡ keep (eligible doc_id through cutoff) rows
eligible-split doc_id through cutoff n [] h k = refl
eligible-split doc_id through cutoff n (r ∷ rows) (h, hs) (k, ks) =
    ground (arith, eligible-split doc_id through cutoff n rows hs ks, h, k)

tail-split :
    (doc_id : Str) (through n : ℕ) (rows : List UpdateRow)
    → through ≤ n
    → keep (λ r. ltb n r.id) (keep (after doc_id through) rows) ≡ keep (after doc_id n) rows
tail-split doc_id through n [] h = refl
tail-split doc_id through n (r ∷ rows) h = ground (arith, tail-split doc_id through n rows h)

tail-covered :
    (doc_id : Str) (n : ℕ) (rows : List UpdateRow)
    → keep (after doc_id n) (keep (λ r. not (covered doc_id n r)) rows) ≡ keep (after doc_id n) rows
tail-covered doc_id n [] = refl
tail-covered doc_id n (r ∷ rows) = ground (arith, tail-covered doc_id n rows)

low_news :
    (doc_id : Str) (through n : ℕ) (news : List UpdateRow)
    → All (λ r. n < r.id) news
    → keep (λ r. leb r.id n) (keep (after doc_id through) news) ≡ []
low_news doc_id through n [] h = refl
low_news doc_id through n (r ∷ news) (h, hs) = ground (arith, low_news doc_id through n news hs)

low_rows :
    (doc_id : Str) (through cutoff n : ℕ) (rows news : List UpdateRow)
    → All (λ r. eligible doc_id through cutoff r ≡ true → r.id ≤ n) rows
    → All (λ r. after doc_id through r ≡ true → r.id ≤ n → r.created_at < cutoff) rows
    → All (λ r. n < r.id) news
    → keep (λ r. leb r.id n) (keep (after doc_id through) (rows ++ news))
      ≡ keep (eligible doc_id through cutoff) rows
low_rows doc_id through cutoff n rows news upto punctual fresh =
    rw
      (
        keep-append (after doc_id through) rows news,
        keep-append (λ r. leb r.id n) (keep (after doc_id through) rows)
            (keep (after doc_id through) news),
        eligible-split doc_id through cutoff n rows upto punctual,
        low_news doc_id through n news fresh,
      )
      (append-nil _)

-- The tail of the log at the old boundary is what was folded, then the tail at the new one.
tail_splits :
    (doc_id : Str) (through cutoff n : ℕ) (rows news : List UpdateRow)
    → through ≤ n
    → last_id (order_by_id (keep (eligible doc_id through cutoff) rows)) ≡ some n
    → All (λ r. after doc_id through r ≡ true → r.id ≤ n → r.created_at < cutoff) rows
    → All (λ r. n < r.id) news
    → order_by_id (keep (after doc_id through) (rows ++ news))
      ≡ order_by_id (keep (eligible doc_id through cutoff) rows)
        ++ order_by_id (keep (after doc_id n) (rows ++ news))
tail_splits doc_id through cutoff n rows news h last punctual fresh =
    let X = keep (after doc_id through) (rows ++ news) in
    let upto = last_id-keep (eligible doc_id through cutoff) rows n last in
    order_by_id X
    ≡⟨ order_by_id-split n X ⟩
      order_by_id (keep (λ r. leb r.id n) X) ++ order_by_id (keep (λ r. ltb n r.id) X)
    ≡⟨ (rw (
      low_rows doc_id through cutoff n rows news upto punctual fresh,
      tail-split doc_id through n (rows ++ news) h,
    )) ⟩
      order_by_id (keep (eligible doc_id through cutoff) rows)
      ++ order_by_id (keep (after doc_id n) (rows ++ news)) ∎

-- The folded bytes and the tail after them yield what the old snapshot and its tail did.
replay_folded :
    (y : Yjs)
    → EncodesState y
    → (doc_id : Str) (snap : Option SnapshotRow) (cutoff n : ℕ) (rows news : List UpdateRow)
    → folded_through snap ≤ n
    → last_id (order_by_id (keep (eligible doc_id (folded_through snap) cutoff) rows)) ≡ some n
    → All (λ r. after doc_id (folded_through snap) r ≡ true → r.id ≤ n → r.created_at < cutoff) rows
    → All (λ r. n < r.id) news
    → let old = apply_snapshot y (bytes_of snap) in
      let folded =
        apply_all y old
          (updates_of (order_by_id (keep (eligible doc_id (folded_through snap) cutoff) rows))) in
      apply_all y (y.apply y.empty (y.encode folded)) (
        updates_of (
          order_by_id
            (keep (after doc_id n) (keep (λ r. not (covered doc_id n r)) (rows ++ news)))))
      ≡ apply_all y old
          (updates_of (order_by_id (keep (after doc_id (folded_through snap)) (rows ++ news))))
replay_folded y encodes doc_id snap cutoff n rows news h last punctual fresh =
    let low = order_by_id (keep (eligible doc_id (folded_through snap) cutoff) rows) in
    let high = order_by_id (keep (after doc_id n) (rows ++ news)) in
    let old = apply_snapshot y (bytes_of snap) in
    rw (
      tail-covered doc_id n (rows ++ news),
      encodes (apply_all y old (updates_of low)),
      tail_splits doc_id (folded_through snap) cutoff n rows news h last punctual fresh,
      updates_of-append low high,
      apply_all-append y old (updates_of low) (updates_of high),
    )

skip_row :
    (p : UpdateRow → Bool) (pre post : List UpdateRow) (r : UpdateRow)
    → p r ≡ false
    → keep p (pre ++ r ∷ post) ≡ keep p (pre ++ post)
skip_row p [] post r h = rw h
skip_row p (x ∷ pre) post r h = ground (arith, skip_row p pre post r h)

module _ (t : Tables) (doc_id : Str) (cutoff n : ℕ) (s s1 : Store t) (news : List UpdateRow) where
  -- Between the read of the candidate, at `s`, and the compaction, at `s1`, others have only
  -- appended rows above the boundary `n`; and at the read every row up to the boundary was older
  -- than the cutoff.
  pub record Undisturbed : Type 0 where
    pub boundary : (read_for_compaction t s doc_id cutoff).through_update_id ≡ some n
    pub snapshots : s.snapshots ≡ s1.snapshots
    pub appended : t.log.rows s1.log ≡ t.log.rows s.log ++ news
    pub fresh : All (λ r. n < r.id) news
    pub punctual :
        All
          (λ r.
            after doc_id (folded_through (snapshot_of t s doc_id)) r ≡ true
            → r.id ≤ n
            → r.created_at < cutoff)
          (t.log.rows s.log)

-- A compaction that succeeds does not change the document that a load yields, the edits that were appended while it was under way included: where those rows have ids above the boundary, no other compaction came between, the rows up to the boundary are older than the cutoff, and an encoded document is read back.
pub replay-load-compact :
    (y : Yjs)
    → EncodesState y
    → (t : Tables) (doc_id : Str) (cutoff n : ℕ) (s s1 s2 : Store t) (news : List UpdateRow)
    → Undisturbed t doc_id cutoff n s s1 news
    → compact t doc_id
        (fold_candidate y (read_for_compaction t s doc_id cutoff))
        n
        (read_for_compaction t s doc_id cutoff).expected_update_id
        s1
      ≡ some (true, s2)
    → replay y (load t s2 doc_id) ≡ replay y (load t s1 doc_id)
unfolding load read_for_compaction fold_candidate
replay-load-compact y encodes t doc_id cutoff n s s1 s2 news u e =
    let bytes = fold_candidate y (read_for_compaction t s doc_id cutoff) in
    let same = ap (λ ss. find (of_doc doc_id) (t.snapshots.rows ss)) u.snapshots in
    let won =
      compact-Won t doc_id bytes n s1 s2
        (subst (λ o. compact t doc_id bytes n (id_of o) s1 ≡ some (true, s2)) same e) in
    rw (won.snapshot, won.rows, u.appended, ← same)
      (replay_folded y encodes doc_id (snapshot_of t s doc_id) cutoff n (t.log.rows s.log) news
        (rw same won.advanced) u.boundary u.punctual u.fresh)

-- A row of the document that is not older than the cutoff, but whose id is not above the boundary,
-- is in no part of the candidate, and a compaction that succeeds deletes it: candidate and log are
-- those of a log in which the row never stood.
pub late_row_lost :
    (t : Tables) (doc_id : Str) (bytes : Bytes) (cutoff n : ℕ) (s s2 : Store t)
    (pre post : List UpdateRow) (r : UpdateRow)
    → t.log.rows s.log ≡ pre ++ r ∷ post
    → (r.doc_id === doc_id) ≡ true
    → r.id ≤ n
    → cutoff ≤ r.created_at
    → compact t doc_id bytes n (id_of (snapshot_of t s doc_id)) s ≡ some (true, s2)
    → ((read_for_compaction t s doc_id cutoff).updates
        ≡ updates_of (
            order_by_id (
              keep
                (eligible doc_id (folded_through (snapshot_of t s doc_id)) cutoff)
                (pre ++ post))))
      × (t.log.rows s2.log ≡ keep (λ x. not (covered doc_id n x)) (pre ++ post))
unfolding read_for_compaction
late_row_lost t doc_id bytes cutoff n s s2 pre post r rows mine low late e =
    let won = compact-Won t doc_id bytes n s s2 e in
    let through = folded_through (snapshot_of t s doc_id) in
    (
      rw (rows, skip_row (eligible doc_id through cutoff) pre post r (ground arith)),
      rw (won.rows, rows, skip_row (λ x. not (covered doc_id n x)) pre post r (ground arith)),
    )
