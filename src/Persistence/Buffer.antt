-- ===== src/Persistence/Buffer.antt =====
-- apps/server/src/modules/persistence/buffer.ts: the updates of one document, batched into the log.
-- The state is the closure's variables: `chain` holds the batches whose write has not run yet, in
-- order, `log` the rows that this buffer has appended. What the database answers to an append is
-- an argument of the write; materialising the text and compaction come after it and change none of
-- these variables.
pub mod Lossless
pub mod Timer
use collab_ide.Base.{
  ℕ, ◌+◌, ◌*◌, ◌≡◌, Bool, true, false, List, [], ◌∷◌, ◌++◌, length, leb, if◌then◌else◌,
}
use collab_ide.Persistence.Yjs.{Yjs, Bytes}

-- 64 * 1024
abbrev pub flush_bytes : ℕ
flush_bytes = 65_536

pub record Buffer : Type 0 where
  pub buffered : List Bytes
  pub buffered_bytes : ℕ
  pub timer : Bool
  pub chain : List (List Bytes)
  pub log : List Bytes
  pub detached : Bool

abbrev pub attach : Buffer
attach = record {
  buffered = [];
  buffered_bytes = 0;
  timer = false;
  chain = [];
  log = [];
  detached = false;
}

unfoldable pub flush : Buffer → Buffer
flush b = record b {
  buffered = [];
  buffered_bytes = 0;
  timer = false;
  chain = b.chain ++ b.buffered ∷ [];
}

unfoldable pub push_update : Bytes → Buffer → Buffer
push_update update b = record b {
  buffered = b.buffered ++ update ∷ [];
  buffered_bytes = b.buffered_bytes + length update;
}

-- The observer that `ydoc.on('update', …)` calls, until `detach` takes it off.
unfoldable pub on_update : Bytes → Buffer → Buffer
on_update update b =
    if b.detached
    then b
    else if leb flush_bytes (push_update update b).buffered_bytes
    then flush (push_update update b)
    else record (push_update update b) { timer = true }

-- The timer's callback; nothing happens where no timer is set.
unfoldable pub fire_timer : Buffer → Buffer
fire_timer b = if b.timer then flush b else b

pub detach : Buffer → Buffer
detach b = record b { detached = true; timer = false }

module _ (y : Yjs) where
  -- `writeBatch`; `stored` says whether `appendUpdate` succeeded.
  unfoldable pub write_batch : List Bytes → Bool → Buffer → Buffer
  write_batch [] stored b = b
  write_batch (u ∷ us) true b = record b { log = b.log ++ y.merge (u ∷ us) ∷ [] }
  write_batch (u ∷ us) false b = record b {
    buffered = y.merge (u ∷ us) ∷ b.buffered;
    buffered_bytes = b.buffered_bytes + length (y.merge (u ∷ us));
  }

  -- The chain runs its next write.
  unfoldable pub run_chain : List (List Bytes) → Bool → Buffer → Buffer
  run_chain [] stored b = b
  run_chain (batch ∷ rest) stored b = write_batch batch stored (record b { chain = rest })

  unfoldable pub run_next : Bool → Buffer → Buffer
  unfolding run_chain
  run_next stored b = run_chain b.chain stored b

  pub data Event : Type 0 where
    updated : Bytes → Event
    flushed fired removed : Event
    wrote : Bool → Event

  unfoldable pub step : Buffer → Event → Buffer
  step b (updated u) = on_update u b
  step b flushed = flush b
  step b fired = fire_timer b
  step b removed = detach b
  step b (wrote stored) = run_next stored b

  unfoldable pub run : Buffer → List Event → Buffer
  run b [] = b
  run b (e ∷ es) = run (step b e) es
