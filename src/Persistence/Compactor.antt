-- ===== src/Persistence/Compactor.antt =====
-- apps/server/src/modules/persistence/compactor.ts
pub mod Folds
pub mod Upkeep
use collab_ide.Base.{ℕ, ◌-◌, ◌≡◌, Bool, Option, none, some, List, Str, leb, if◌then◌else◌}
use collab_ide.Persistence.Yjs.{Yjs, Bytes, apply_all}
use collab_ide.Persistence.DocStore.{
  Tables, Store, CompactionCandidate, read_for_compaction, compact, count_updates,
}

abbrev pub compact_after : ℕ
compact_after = 200

abbrev pub compact_lag_ms : ℕ
compact_lag_ms = 30_000

abbrev pub apply_snapshot : (y : Yjs) → Option Bytes → y.Doc
apply_snapshot y none = y.empty
apply_snapshot y (some snapshot) = y.apply y.empty snapshot

unfoldable pub fold_candidate : Yjs → CompactionCandidate → Bytes
fold_candidate y c = y.encode (apply_all y (apply_snapshot y c.snapshot) c.updates)

abbrev after_compact : (t : Tables) → Option (Bool × Store t) → Option (Store t)
after_compact t none = none
after_compact t (some (won, s)) = some s

compact_candidate :
    (y : Yjs) (t : Tables) → Str → CompactionCandidate → Option ℕ → Store t → Option (Store t)
compact_candidate y t doc_id c none s = some s
compact_candidate y t doc_id c (some through) s =
    after_compact t (compact t doc_id (fold_candidate y c) through c.expected_update_id s)

-- The three calls of the store are awaited, so each may find another state: the count, the read of the
-- candidate and the compaction. `now` is `Date.now()`; the result is the store after the call, none if it throws.
unfoldable pub maybe_compact :
    (y : Yjs) (t : Tables) → Str → ℕ → Store t → Store t → Store t → Option (Store t)
unfolding compact_candidate
maybe_compact y t doc_id now counted read s =
    let c = read_for_compaction t read doc_id (now - compact_lag_ms) in
    if leb (count_updates t counted doc_id) compact_after
    then some s
    else compact_candidate y t doc_id c c.through_update_id s
