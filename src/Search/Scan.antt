-- ===== src/Search/Scan.antt =====
-- Content search over a project: the effect of `useProjectSearch` in
-- apps/web/src/features/search/useProjectSearch.ts. The workers share the variables of the effect;
-- each runs between two awaits without a break, so a step is one worker's turn or one answer.
use collab_ide.Base.{
  ℕ, zero, suc, ◌+◌, ◌-◌, ◌≤◌, ◌<◌, ◌≡◌, Bool, true, false, List, [], ◌∷◌, ◌++◌, map, Option, none,
  some, Str, text, length, take, if◌then◌else◌, leb, ltb, ◌==◌, ◌===◌, not, ◌&&◌, ◌||◌, keep, find,
}
use collab_ide.Search.Contents.{ContentMatch, match_content, looks_binary, is_content_searchable}
use collab_ide.Search.Tree.{FlatNode}
pub mod Steps
pub mod Bounds
pub mod Finish

abbrev pub concurrency : ℕ
concurrency = 6

abbrev pub max_files_scanned : ℕ
max_files_scanned = 300

abbrev pub max_matches_per_file : ℕ
max_matches_per_file = 5

abbrev pub max_content_matches : ℕ
max_content_matches = 120

abbrev pub max_searchable_bytes : ℕ
max_searchable_bytes = 512000

abbrev pub flush_ms : ℕ
flush_ms = 90

pub record ContentHit : Type 0 where
  pub node : FlatNode
  pub hit : ContentMatch

pub data ContentState : Type 0 where
  idle searching done : ContentState

-- What the palette is shown.
pub record Shown : Type 0 where
  pub contents : List ContentHit
  pub content_state : ContentState
  pub scanned : ℕ
  pub total : ℕ
  pub skipped : ℕ
  pub partial : Bool
  pub capped : Bool
  pub error : Option Str

abbrev pub nothing_shown : Shown
nothing_shown = record {
  contents = [];
  content_state = idle;
  scanned = 0;
  total = 0;
  skipped = 0;
  partial = false;
  capped = false;
  error = none;
}

-- The answer to the request for a file.
pub data Answer : Type 0 where
  received : Str → Answer
  api_error : ℕ → Str → Answer
  other_error : Answer

abbrev pub CacheEntry : Type 0
CacheEntry = Str × Str

-- A node that a worker is reading, with what the cache held for it.
abbrev pub Reading : Type 0
Reading = FlatNode × Option Str

pub record Scan : Type 0 where
  pub cursor : ℕ
  pub scanned : ℕ
  pub skipped : ℕ
  pub hits : List ContentHit
  pub capped : Bool
  pub cancelled : Bool
  pub error : Option Str
  pub cache : List CacheEntry
  -- The workers at the top of their loop, and the ones that await a read.
  pub ready : ℕ
  pub reading : List Reading
  pub last_flush : ℕ
  pub shown : Shown

abbrev pub at_index {ℓ} : {A : Type ℓ} → List A → ℕ → Option A
at_index [] i = none
at_index (x ∷ xs) zero = some x
at_index (x ∷ xs) (suc i) = at_index xs i

abbrev pub without_index {ℓ} : {A : Type ℓ} → List A → ℕ → List A
without_index [] i = []
without_index (x ∷ xs) zero = xs
without_index (x ∷ xs) (suc i) = x ∷ without_index xs i

-- `${node.id}@${node.updatedAt}`
abbrev pub cache_key : FlatNode → Str
cache_key n = n.id ++ b'@' ∷ n.updated_at

abbrev pub cache_get : List CacheEntry → Str → Option Str
cache_get [] key = none
cache_get ((k, content) ∷ cache) key = if k === key then some content else cache_get cache key

abbrev pub first_error : Option Str → Str → Option Str
first_error none message = some message
first_error (some e) message = some e

abbrev pub could_not_read : Str
could_not_read = text "Some files could not be read."

module _ (to_lower_case : Str → Str) (trimmed : Str) (candidates : List FlatNode) where
  abbrev pub targets : List FlatNode
  targets = take max_files_scanned candidates

  abbrev pub is_partial : Bool
  is_partial = ltb (length targets) (length candidates)

  -- The state that the effect sets up before its workers start.
  abbrev pub scan_start : List CacheEntry → Scan
  scan_start cache = record {
    cursor = 0;
    scanned = 0;
    skipped = length candidates - length targets;
    hits = [];
    capped = false;
    cancelled = false;
    error = none;
    cache = cache;
    ready = concurrency;
    reading = [];
    last_flush = 0;
    shown = record nothing_shown {
      content_state = searching;
      total = length targets;
      skipped = length candidates - length targets;
      partial = is_partial;
    };
  }

  abbrev pub shown_of : ContentState → Scan → Shown
  shown_of state s = record {
    contents = take max_content_matches s.hits;
    content_state = state;
    scanned = s.scanned;
    total = length targets;
    skipped = s.skipped;
    partial = is_partial;
    capped = s.capped;
    error = s.error;
  }

  abbrev pub publish : ContentState → Bool → ℕ → Scan → Scan
  publish state force now s =
      if not force && ltb (now - s.last_flush) flush_ms
      then s
      else record s { last_flush = now; shown = shown_of state s }

  -- `read` after its await: the content or null, and the change to the cache or to the error.
  abbrev pub read : FlatNode → Option Str → Answer → Scan → Option Str × Scan
  read n (some cached) answer s = (some cached, s)
  read n none (received content) s =
      (some content, record s { cache = (cache_key n, content) ∷ s.cache })
  read n none (api_error status message) s =
      (none, if status == 404 then s else record s { error = first_error s.error message })
  read n none other_error s = (none, record s { error = first_error s.error could_not_read })

  abbrev pub hit_of : FlatNode → ContentMatch → ContentHit
  hit_of n m = record { node = n; hit = m }

  abbrev pub add_hits : FlatNode → Str → Scan → Scan
  add_hits n content s =
      let hits =
        s.hits
        ++ map (hit_of n) (match_content to_lower_case content trimmed max_matches_per_file) in
      record s { hits = hits; capped = s.capped || leb max_content_matches (length hits) }

  abbrev pub scan_content : FlatNode → Option Str → Scan → Scan
  scan_content n none s = s
  scan_content n (some content) s =
      if ltb max_searchable_bytes (length content) || looks_binary content
      then record s { skipped = suc s.skipped }
      else add_hits n content s

  -- A worker at the top of its loop, until it awaits a read or returns.
  abbrev pub begin_read : Option FlatNode → Scan → Scan
  begin_read none s = record s { cursor = suc s.cursor; ready = s.ready - 1 }
  begin_read (some n) s = record s {
    cursor = suc s.cursor;
    ready = s.ready - 1;
    reading = s.reading ++ (n, cache_get s.cache (cache_key n)) ∷ [];
  }

  unfoldable pub worker_turn : Scan → Scan
  worker_turn s =
      if s.cancelled || s.capped
      then record s { ready = s.ready - 1 }
      else begin_read (at_index targets s.cursor) s

  -- A worker whose read is answered, until it is at the top of its loop or returns.
  abbrev pub resume : FlatNode → Option Str → ℕ → Scan → Scan
  resume n content now s =
      if s.cancelled
      then s
      else publish searching false now
          (record (scan_content n content (record s { scanned = suc s.scanned })) {
            ready = suc s.ready;
          })

  abbrev pub after_read : FlatNode → ℕ → Option Str × Scan → Scan
  after_read n now (content, s) = resume n content now s

  unfoldable pub worker_answered : ℕ → Reading → Answer → ℕ → Scan → Scan
  worker_answered i (n, cached) answer now s =
      after_read n now (read n cached answer (record s { reading = without_index s.reading i }))

  -- The clean-up of the effect.
  abbrev pub cancel : Scan → Scan
  cancel s = record s { cancelled = true }

  -- What `Promise.all` of the workers leads to.
  unfoldable pub all_settled : ℕ → Scan → Scan
  all_settled now s = if s.cancelled then s else publish done true now s

-- `nodes.filter(...)`
abbrev pub candidates_of : (Str → Str) → List FlatNode → List FlatNode
candidates_of to_lower_case nodes =
    keep (λ n. not n.is_dir && is_content_searchable to_lower_case n.path) nodes
