-- ===== src/Examples/Persistence.antt =====
-- A document that counts what its updates add, and a log of three rows.
use collab_ide.Base.{
  ℕ, ◌+◌, ◌≡◌, refl, ap, sym, ◌∙◌, ◌⊎◌, true, false, some, List, [], ◌∷◌, ◌++◌, arith, Str, ◌===◌,
}
use collab_ide.Base.{zero, suc, ◌≤◌, ◌<◌, All}
use collab_ide.Persistence.DocStore.{after, count_updates}
use collab_ide.Persistence.Compactor.{maybe_compact}
use collab_ide.Persistence.Compactor.Upkeep.{Alone, Handled, replay-load-maybe_compact}
use collab_ide.Database.Memory.{memory}
use collab_ide.Persistence.Yjs.{Bytes, Yjs, apply_all, EncodesState, Merges, Commutes}
use collab_ide.Persistence.DocStore.{
  UpdateRow, SnapshotRow, Tables, Store, same_id, same_doc, of_doc, load, read_for_compaction,
  compact, order_by_id, insert_by_id, last_id,
}
use collab_ide.Persistence.Compactor.{fold_candidate}
use collab_ide.Persistence.Compactor.Folds.{replay, Undisturbed, replay-load-compact}
use collab_ide.Persistence.Buffer.{Buffer, Event, attach, run, updated, flushed, wrote, fired}
use collab_ide.Persistence.Buffer.Timer.{Armed, run-Armed}
use collab_ide.Persistence.Buffer.Lossless.{held, seen, run_lossless}

abbrev total : Bytes → ℕ
total [] = 0
total (b ∷ bs) = b + total bs

abbrev concat : List Bytes → Bytes
concat [] = []
concat (u ∷ us) = u ++ concat us

abbrev counter : Yjs
counter = record {
  Doc = ℕ;
  empty = 0;
  apply = λ d u. d + total u;
  encode = λ d. d ∷ [];
  merge = concat;
}

total-append : (u v : Bytes) → total (u ++ v) ≡ total u + total v
total-append [] v = omega arith
total-append (b ∷ u) v = omega (arith, total-append u v)

counter-EncodesState : EncodesState counter
counter-EncodesState d = omega arith

counter-Merges : Merges counter
counter-Merges d [] = omega arith
counter-Merges d (u ∷ us) =
    ap (λ n. d + n) (total-append u (concat us)) ∙ omega arith ∙ counter-Merges (d + total u) us

counter-Commutes : Commutes counter
counter-Commutes d u v = omega arith

abbrev tables : Tables
tables = record { log = memory UpdateRow same_id; snapshots = memory SnapshotRow same_doc }

abbrev doc : Str
doc = b'd' ∷ []

abbrev row : ℕ → ℕ → UpdateRow
row id at = record { id = id; doc_id = doc; update = id ∷ []; created_at = at }

abbrev folded : ℕ → SnapshotRow
folded n = record { doc_id = doc; snapshot = 3 ∷ []; update_id = n }

abbrev before : Store tables
before = record { log = row 1 5 ∷ row 2 6 ∷ []; snapshots = [] }

-- An edit arrives while the compaction is under way.
abbrev meanwhile : Store tables
meanwhile = record { log = row 1 5 ∷ row 2 6 ∷ row 3 40 ∷ []; snapshots = [] }

abbrev compacted : Store tables
compacted = record { log = row 3 40 ∷ []; snapshots = folded 2 ∷ [] }

meanwhile-Undisturbed : Undisturbed tables doc 30 2 before meanwhile (row 3 40 ∷ [])
unfolding read_for_compaction order_by_id insert_by_id last_id of_doc ◌===◌
meanwhile-Undisturbed = record {
  boundary = refl;
  snapshots = refl;
  appended = refl;
  fresh = (omega arith, tt);
  punctual = (λ _ _. omega arith, (λ _ _. omega arith, tt));
}

compacted_lem :
    compact tables doc
      (fold_candidate counter (read_for_compaction tables before doc 30))
      2
      (read_for_compaction tables before doc 30).expected_update_id
      meanwhile
    ≡ some (true, compacted)
unfolding compact fold_candidate read_for_compaction order_by_id insert_by_id last_id of_doc
    same_doc ◌===◌
compacted_lem = refl

replay-load-compact_example :
    replay counter (load tables compacted doc) ≡ replay counter (load tables meanwhile doc)
replay-load-compact_example =
    replay-load-compact counter counter-EncodesState tables doc 30 2 before meanwhile compacted
      (row 3 40 ∷ []) meanwhile-Undisturbed compacted_lem

-- Row 1 was stamped by a clock that is ahead.
abbrev skewed : Store tables
skewed = record { log = row 1 50 ∷ row 2 6 ∷ []; snapshots = [] }

abbrev without_row : Store tables
without_row = record { log = []; snapshots = folded 2 ∷ [] }

-- Two edits; the database refuses the first batch and takes it with the second.
abbrev edits : List (Event counter)
edits = updated (1 ∷ []) ∷ fired ∷ wrote false ∷ updated (2 ∷ []) ∷ flushed ∷ wrote true ∷ []

run_lossless_example :
    apply_all counter 0 (held (run counter attach edits))
    ≡ apply_all counter 0 (seen counter attach edits)
run_lossless_example = run_lossless counter counter-Merges counter-Commutes edits

abbrev good_edits : List (Event counter)
good_edits = updated (1 ∷ []) ∷ fired ∷ wrote true ∷ updated (2 ∷ []) ∷ []

run-Armed_example : Armed (run counter attach good_edits)
run-Armed_example = run-Armed counter good_edits (refl, tt)

abbrev queued : Buffer
queued = record {
  buffered = [];
  buffered_bytes = 0;
  timer = false;
  chain = ((1 ∷ []) ∷ []) ∷ [];
  log = [];
  detached = false;
}

-- A log of `n` rows from the id `k` on.
abbrev rows_from : ℕ → ℕ → List UpdateRow
rows_from zero k = []
rows_from (suc n) k = row k 5 ∷ rows_from n (suc k)

rows_from-old :
    (through cutoff m n k : ℕ)
    → 5 < cutoff
    → All (λ r. after doc through r ≡ true → r.id ≤ m → r.created_at < cutoff) (rows_from n k)
rows_from-old through cutoff m zero k h = tt
rows_from-old through cutoff m (suc n) k h = (λ _ _. h, rows_from-old through cutoff m n (suc k) h)

-- One row more than `compact_after`.
abbrev long_log : Store tables
long_log = record { log = rows_from 201 1; snapshots = [] }

-- A row is appended after the read.
abbrev longer_log : Store tables
longer_log = record { log = rows_from 201 1 ++ row 202 5 ∷ []; snapshots = [] }

abbrev folded_log : Store tables
folded_log = record {
  log = row 202 5 ∷ [];
  snapshots = record { doc_id = doc; snapshot = 20_301 ∷ []; update_id = 201 } ∷ [];
}

folded_log_lem :
    maybe_compact counter tables doc 100_000 long_log long_log longer_log ≡ some folded_log
unfolding maybe_compact count_updates compact fold_candidate read_for_compaction order_by_id
    insert_by_id last_id of_doc same_doc ◌===◌
folded_log_lem = refl

boundary_lem : (read_for_compaction tables long_log doc 70_000).through_update_id ≡ some 201
unfolding read_for_compaction order_by_id insert_by_id last_id of_doc ◌===◌
boundary_lem = refl

long_log-Alone :
    Alone counter counter-EncodesState tables doc 70_000 long_log (row 202 5 ∷ []) longer_log
long_log-Alone n s' at e =
    let last : some 201 ≡ some n = sym boundary_lem ∙ at in
    let same : 201 ≡ n = cc in
    record {
      boundary = at;
      snapshots = refl;
      appended = refl;
      fresh = (omega arith, tt);
      punctual = rows_from-old 0 70_000 n 201 1 (omega arith);
    }

replay-load-maybe_compact_example :
    (replay counter (load tables folded_log doc) ≡ replay counter (load tables longer_log doc))
    × (((count_updates tables long_log doc ≤ 200) × (folded_log ≡ longer_log))
        ⊎ ((200 < count_updates tables long_log doc)
            × Handled counter counter-EncodesState tables doc 70_000 long_log longer_log
                folded_log))
replay-load-maybe_compact_example =
    replay-load-maybe_compact counter counter-EncodesState tables doc 100_000 long_log long_log
      longer_log folded_log (row 202 5 ∷ []) long_log-Alone folded_log_lem
