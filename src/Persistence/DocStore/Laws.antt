-- ===== src/Persistence/DocStore/Laws.antt =====
-- persistence/postgresDocStore.ts: the outcomes of `compact`.
use collab_ide.Base.{
  ℕ, ◌≤◌, ◌<◌, ◌≡◌, refl, ap, ◌∙◌, Bool, true, false, not, ◌&&◌, Option, none, some, List, [], ◌∷◌,
  ◌++◌, map, any, keep, find, find-holds, count, Str, ===_iff, ===_refl, ◌==◌, Option-cases, inl,
  inr, arith,
}
use collab_ide.Database.{update_row}
use collab_ide.Database.Distinct.{create_inv}
use collab_ide.Persistence.Yjs.{Bytes}
use collab_ide.Persistence.DocStore.{
  SnapshotRow, Tables, Store, folded_through, id_of, of_doc, same_doc, covered, snapshot_of,
  compact,
}

find-append_none :
    (doc_id : Str) (rs : List SnapshotRow) (r : SnapshotRow)
    → any (of_doc doc_id) rs ≡ false
    → of_doc doc_id r ≡ true
    → find (of_doc doc_id) (rs ++ r ∷ []) ≡ some r
find-append_none doc_id [] r h k = rw k
find-append_none doc_id (x ∷ rs) r h k = ground (arith, find-append_none doc_id rs r)

find-update_row :
    (doc_id : Str) (q : SnapshotRow → Bool) (f : SnapshotRow → SnapshotRow) (rs : List SnapshotRow)
    (m : SnapshotRow)
    → ((r : SnapshotRow) → of_doc doc_id (f r) ≡ of_doc doc_id r)
    → find (of_doc doc_id) rs ≡ some m
    → q m ≡ true
    → find (of_doc doc_id) (map (update_row q f) rs) ≡ some (f m)
find-update_row doc_id q f [] m keeps e h = cc
find-update_row doc_id q f (x ∷ rs) m keeps e h =
    ground (arith, find-update_row doc_id q f rs m keeps, keeps x)

abbrev pub folded_row : Str → Bytes → ℕ → SnapshotRow
folded_row doc_id snapshot through = record {
  doc_id = doc_id;
  snapshot = snapshot;
  update_id = through;
}

folded_of_none : (n : ℕ) (o : Option SnapshotRow) → id_of o ≡ none → folded_through o ≤ n
folded_of_none n none e = omega arith
folded_of_none n (some r) e = cc

of_doc_key :
    (doc_id : Str) (rs : List SnapshotRow) (m : SnapshotRow)
    → find (of_doc doc_id) rs ≡ some m
    → m.doc_id ≡ doc_id
unfolding of_doc
of_doc_key doc_id rs m e = (===_iff m.doc_id doc_id).0 (find-holds (of_doc doc_id) rs e)

of_doc-refold :
    (doc_id : Str) (bytes : Bytes) (n : ℕ) (r : SnapshotRow)
    → of_doc doc_id (record r { snapshot = bytes; update_id = n }) ≡ of_doc doc_id r
unfolding of_doc
of_doc-refold doc_id bytes n r = refl

picks_found :
    (doc_id : Str) (rs : List SnapshotRow) (m : SnapshotRow)
    → find (of_doc doc_id) rs ≡ some m
    → (of_doc doc_id m && (m.update_id == m.update_id)) ≡ true
picks_found doc_id rs m e = rw (find-holds (of_doc doc_id) rs e) (ground arith)

count_of_any : {A : Type 0} (p : A → Bool) (xs : List A) → any p xs ≡ false → count p xs ≡ 0
count_of_any p [] h = refl
count_of_any p (x ∷ xs) h = ground (arith, count_of_any p xs)

module _ (t : Tables) (doc_id : Str) (bytes : Bytes) (n : ℕ) (s s' : Store t) where
  -- What a compaction that reports success has done, if the snapshot was the expected one.
  pub record Won : Type 0 where
    pub advanced : folded_through (snapshot_of t s doc_id) ≤ n
    pub snapshot : snapshot_of t s' doc_id ≡ some (folded_row doc_id bytes n)
    pub rows : t.log.rows s'.log ≡ keep (λ r. not (covered doc_id n r)) (t.log.rows s.log)

  compact-Won_create :
      id_of (snapshot_of t s doc_id) ≡ none
      → compact t doc_id bytes n none s ≡ some (true, s')
      → Won
  unfolding compact
  compact-Won_create old e =
      elim (Option-cases (t.snapshots.create (folded_row doc_id bytes n) s.snapshots)) [
        | inl bad ↦ absurd (ground arith)
        | inr (ss, made) ↦
            let (new, srows) =
              create_inv t.snapshots (folded_row doc_id bytes n) s.snapshots made in
            let same_s : ss ≡ s'.snapshots = ground arith in
            let same_l : t.log.delete_many (covered doc_id n) s.log ≡ s'.log = ground arith in
            record {
              advanced = folded_of_none n (snapshot_of t s doc_id) old;
              snapshot =
                  rw (← same_s, srows)
                    (unfold same_doc of_doc in (find-append_none doc_id _ _ new (===_refl doc_id)));
              rows = rw (← same_l) (t.log.rows-delete_many (covered doc_id n) s.log);
            }
      ]

  compact-Won_update :
      (old : SnapshotRow)
      → snapshot_of t s doc_id ≡ some old
      → compact t doc_id bytes n (some old.update_id) s ≡ some (true, s')
      → Won
  unfolding compact
  compact-Won_update old found e =
      let same_l : t.log.delete_many (covered doc_id n) s.log ≡ s'.log = ground arith in
      let same_s : t.snapshots.update_many (λ r. of_doc doc_id r && (r.update_id == old.update_id))
            (λ r. record r { snapshot = bytes; update_id = n }) s.snapshots
          ≡ s'.snapshots =
        ground arith in
      record {
        advanced = rw found (ground arith);
        snapshot =
            rw
              (
                ← same_s,
                t.snapshots.rows-update_many
                    (λ r. of_doc doc_id r && (r.update_id == old.update_id))
                    (λ r. record r { snapshot = bytes; update_id = n }) s.snapshots,
              )
              (find-update_row doc_id _ _ (t.snapshots.rows s.snapshots) old
                  (of_doc-refold doc_id bytes n) found (picks_found doc_id _ old found)
                ∙ ap (λ d. some (folded_row d bytes n)) (of_doc_key doc_id _ old found));
        rows = rw (← same_l) (t.log.rows-delete_many (covered doc_id n) s.log);
      }

  -- Success: the watermark advances, and the rows up to it are gone with the old snapshot.
  pub compact-Won :
      compact t doc_id bytes n (id_of (snapshot_of t s doc_id)) s ≡ some (true, s') → Won
  compact-Won e = elim (Option-cases (snapshot_of t s doc_id)) [
    | inl none_found ↦ compact-Won_create (rw none_found) (rw none_found at e)
    | inr (old, found) ↦ compact-Won_update old found (rw found at e)
  ]

-- A compaction that lost has changed nothing.
pub compact-lost :
    (t : Tables) (doc_id : Str) (bytes : Bytes) (n : ℕ) (expected : Option ℕ) (s s' : Store t)
    → compact t doc_id bytes n expected s ≡ some (false, s')
    → s ≡ s'
unfolding compact
compact-lost t doc_id bytes n none s s' e = ground arith
compact-lost t doc_id bytes n (some old) s s' e = ground arith

-- The snapshot row is no longer what was read: there was none, or one with another watermark.
abbrev pub Moved : (t : Tables) → Str → Option ℕ → Store t → Type 0
Moved t doc_id none s = any (of_doc doc_id) (t.snapshots.rows s.snapshots) ≡ true
Moved t doc_id (some e) s =
    any (λ r. of_doc doc_id r && (r.update_id == e)) (t.snapshots.rows s.snapshots) ≡ false

abbrev pub Above : Option ℕ → ℕ → Type 0
Above none n = Unit
Above (some e) n = e < n

-- A compaction whose boundary is above the watermark that it expects, and whose snapshot row has been written by another since it was read, reports that it lost and changes nothing.
pub compact-refused :
    (t : Tables) (doc_id : Str) (bytes : Bytes) (n : ℕ) (expected : Option ℕ) (s : Store t)
    → Above expected n
    → Moved t doc_id expected s
    → compact t doc_id bytes n expected s ≡ some (false, s)
unfolding compact same_doc
compact-refused t doc_id bytes n none s above moved =
    rw (t.snapshots.create_conflict (folded_row doc_id bytes n) s.snapshots moved, compact)
compact-refused t doc_id bytes n (some e) s above moved = ground (
  arith,
  count_of_any (λ r. of_doc doc_id r && (r.update_id == e)) (t.snapshots.rows s.snapshots) moved,
)
