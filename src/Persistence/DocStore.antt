-- ===== src/Persistence/DocStore.antt =====
-- apps/server/src/modules/persistence/DocStore.ts and postgresDocStore.ts. A call returns the new
-- state with its result; `none` is a thrown error, after which the transaction has changed nothing.
pub mod Order
pub mod Laws
use collab_ide.Base.{
  ℕ, zero, suc, ◌+◌, ◌≡◌, Bool, true, false, not, ◌&&◌, ◌||◌, Option, none, some, List, [], ◌∷◌,
  ◌++◌, map, any, keep, find, count, Str, ◌===◌, ltb, leb, ◌==◌, if◌then◌else◌, is_some,
}
use collab_ide.Database.{Table, find_first, find_many, count_rows}
use collab_ide.Persistence.Yjs.{Bytes}

pub record UpdateRow : Type 0 where
  pub id : ℕ
  pub doc_id : Str
  pub update : Bytes
  -- Milliseconds.
  pub created_at : ℕ

pub record SnapshotRow : Type 0 where
  pub doc_id : Str
  pub snapshot : Bytes
  pub update_id : ℕ

unfoldable pub same_id : UpdateRow → UpdateRow → Bool
same_id r s = r.id == s.id

unfoldable pub of_doc : Str → SnapshotRow → Bool
of_doc doc_id s = s.doc_id === doc_id

unfoldable pub same_doc : SnapshotRow → SnapshotRow → Bool
unfolding of_doc
same_doc r s = of_doc r.doc_id s

pub record LoadedDoc : Type 0 where
  pub exists : Bool
  pub snapshot : Option Bytes
  pub updates : List Bytes
  pub last_update_id : Option ℕ

pub record CompactionCandidate : Type 0 where
  pub snapshot : Option Bytes
  pub expected_update_id : Option ℕ
  pub updates : List Bytes
  pub through_update_id : Option ℕ

pub record Tables : Type 1 where
  pub log : Table UpdateRow same_id
  pub snapshots : Table SnapshotRow same_doc

pub record Store (t : Tables) : Type 0 where
  pub log : t.log.Db
  pub snapshots : t.snapshots.Db

-- `orderBy: { id: 'asc' }`
unfoldable pub insert_by_id : UpdateRow → List UpdateRow → List UpdateRow
insert_by_id r [] = r ∷ []
insert_by_id r (s ∷ rows) = if leb r.id s.id then r ∷ s ∷ rows else s ∷ insert_by_id r rows

unfoldable pub order_by_id : List UpdateRow → List UpdateRow
order_by_id [] = []
order_by_id (r ∷ rows) = insert_by_id r (order_by_id rows)

-- `rows.at(-1)?.id`
unfoldable pub last_id : List UpdateRow → Option ℕ
last_id [] = none
last_id (r ∷ []) = some r.id
last_id (r ∷ s ∷ rows) = last_id (s ∷ rows)

-- `snapshot?.updateId ?? 0n`
abbrev pub folded_through : Option SnapshotRow → ℕ
folded_through none = 0
folded_through (some s) = s.update_id

abbrev pub bytes_of : Option SnapshotRow → Option Bytes
bytes_of none = none
bytes_of (some s) = some s.snapshot

abbrev pub id_of : Option SnapshotRow → Option ℕ
id_of none = none
id_of (some s) = some s.update_id

-- `a ?? b`
abbrev pub or_else : Option ℕ → Option ℕ → Option ℕ
or_else none b = b
or_else (some a) b = some a

abbrev pub is_empty {ℓ} : {A : Type ℓ} → List A → Bool
is_empty [] = true
is_empty (x ∷ xs) = false

abbrev pub after : Str → ℕ → UpdateRow → Bool
after doc_id through r = (r.doc_id === doc_id) && ltb through r.id

abbrev pub eligible : Str → ℕ → ℕ → UpdateRow → Bool
eligible doc_id through cutoff r = after doc_id through r && ltb r.created_at cutoff

abbrev pub covered : Str → ℕ → UpdateRow → Bool
covered doc_id through r = (r.doc_id === doc_id) && leb r.id through

module _ (t : Tables) where
  abbrev pub snapshot_of : Store t → Str → Option SnapshotRow
  snapshot_of s doc_id = find_first t.snapshots (of_doc doc_id) s.snapshots

  unfoldable pub load : Store t → Str → LoadedDoc
  load s doc_id =
      let snapshot = snapshot_of s doc_id in
      let rows = order_by_id (find_many t.log (after doc_id (folded_through snapshot)) s.log) in
      record {
        exists = is_some snapshot || not (is_empty rows);
        snapshot = bytes_of snapshot;
        updates = map (λ r. r.update) rows;
        last_update_id = or_else (last_id rows) (id_of snapshot);
      }

  -- `id` and `now` are what the sequence and the clock of the database give the new row.
  unfoldable pub append_update : ℕ → ℕ → Str → Bytes → Store t → Option (ℕ × Store t)
  append_update id now doc_id update s =
      elim (t.log.create (record { id = id; doc_id = doc_id; update = update; created_at = now })
        s.log) [ none ↦ none | some log ↦ some (id, record s { log = log }) ]

  -- An upsert on the unique docId.
  unfoldable pub write_snapshot : Str → Bytes → ℕ → Store t → Option (Store t)
  write_snapshot doc_id snapshot through s =
      if is_some (snapshot_of s doc_id)
      then some (record s {
        snapshots =
            t.snapshots.update_many (of_doc doc_id)
              (λ r. record r { snapshot = snapshot; update_id = through }) s.snapshots;
      })
      else elim (t.snapshots.create
          (record { doc_id = doc_id; snapshot = snapshot; update_id = through }) s.snapshots) [
            | none ↦ none
            | some snapshots ↦ some (record s { snapshots = snapshots })
          ]

  unfoldable pub read_for_compaction : Store t → Str → ℕ → CompactionCandidate
  read_for_compaction s doc_id cutoff =
      let snapshot = snapshot_of s doc_id in
      let rows =
        order_by_id (find_many t.log (eligible doc_id (folded_through snapshot) cutoff) s.log) in
      record {
        snapshot = bytes_of snapshot;
        expected_update_id = id_of snapshot;
        updates = map (λ r. r.update) rows;
        through_update_id = last_id rows;
      }

  abbrev drop_covered : Str → ℕ → Store t → Store t
  drop_covered doc_id through s = record s {
    log = t.log.delete_many (covered doc_id through) s.log;
  }

  -- The branch of `compact` for a document that had a snapshot when it was read.
  compact_over : Str → Bytes → ℕ → ℕ → Store t → Option (Bool × Store t)
  compact_over doc_id snapshot through expected s =
      if leb through expected
      then none
      else if not (
          count_rows t.snapshots (λ r. of_doc doc_id r && (r.update_id == expected)) s.snapshots
          == 1)
      then some (false, s)
      else some (
        true,
        drop_covered doc_id through (record s {
          snapshots =
              t.snapshots.update_many (λ r. of_doc doc_id r && (r.update_id == expected))
                (λ r. record r { snapshot = snapshot; update_id = through }) s.snapshots;
        }),
      )

  unfoldable pub compact : Str → Bytes → ℕ → Option ℕ → Store t → Option (Bool × Store t)
  unfolding compact_over
  compact doc_id snapshot through (some expected) s =
      compact_over doc_id snapshot through expected s
  compact doc_id snapshot through none s =
      elim (t.snapshots.create
        (record { doc_id = doc_id; snapshot = snapshot; update_id = through }) s.snapshots) [
          | none ↦ some (false, s)
          | some snapshots ↦
              some (true, drop_covered doc_id through (record s { snapshots = snapshots }))
        ]

  unfoldable pub count_updates : Store t → Str → ℕ
  count_updates s doc_id = count_rows t.log (λ r. r.doc_id === doc_id) s.log

  unfoldable pub delete_doc : Str → Store t → Store t
  delete_doc doc_id s = record {
    log = t.log.delete_many (λ r. r.doc_id === doc_id) s.log;
    snapshots = t.snapshots.delete_many (of_doc doc_id) s.snapshots;
  }
