-- ===== src/Collab/Messages.antt =====
-- apps/server/src/modules/collab/syncHandler.ts: the message handler, the observers of a room and
-- the frames of the bus. A socket is known by a number; what it is sent and what is published are
-- lists, oldest first. The decoder of lib0, the sync and awareness protocols and Yjs are not in the
-- repository: they are the fields of `Protocol`, `none` being a decoder that throws.
pub mod Fanout
use collab_ide.Base.{
  ℕ, ◌≡◌, Bool, true, false, not, ◌&&◌, Option, none, some, List, [], ◌∷◌, ◌++◌, map, any, keep,
  find, ◌==◌, if◌then◌else◌,
}
use collab_ide.Persistence.Yjs.{Bytes, Yjs}
use collab_ide.Shared.Protocol.{CloseCode, bad_request, MessageType, sync, awareness, message_type}

-- What `readSyncMessage` does with a sync message: it writes a reply (which may be empty) or applies
-- an update.
pub data SyncResult : Type 0 where
  replies : Bytes → SyncResult
  applies : Bytes → SyncResult

-- The ids that an awareness update added or updated, and those that it removed.
pub record Changes : Type 0 where
  pub present : List ℕ
  pub removed : List ℕ

pub record Protocol (y : Yjs) : Type 1 where
  pub read_var_uint : Bytes → Option (ℕ × Bytes)
  pub read_bytes : Bytes → Option Bytes
  pub message_sync_step1 : ℕ
  pub read_sync_message : Bytes → y.Doc → Option SyncResult
  -- What the event `update` of a document carries when an update is applied; none where it
  -- brings nothing new.
  pub update_event : y.Doc → Bytes → Option Bytes
  pub Awareness : Type 0
  -- The changes are those of the event `update`; none where an update changes nothing.
  pub apply_awareness : Awareness → Bytes → Option (Awareness × Option Changes)
  pub encode_awareness : Awareness → List ℕ → Bytes

pub data Message : Type 0 where
  sync_message : Bytes → Message
  sync_reply : Bytes → Message
  awareness_message : Bytes → Message

pub data DocFrame : Type 0 where
  sync_frame : Bytes → DocFrame
  awareness_frame : Bytes → DocFrame

-- Who an update comes from: a socket of the room, or another instance.
pub data Origin : Type 0 where
  from_conn : ℕ → Origin
  from_bus : Origin

pub record Conn : Type 0 where
  pub id : ℕ
  pub open_ : Bool
  pub can_write : Bool
  pub awareness_ids : List ℕ

pub record Room (y : Yjs) (p : Protocol y) : Type 0 where
  pub ydoc : y.Doc
  pub presence : p.Awareness
  pub conns : List Conn
  pub sent : List (ℕ × Message)
  pub published : List DocFrame
  pub closed : List (ℕ × CloseCode)

abbrev pub is_conn : ℕ → Conn → Bool
is_conn id c = c.id == id

abbrev pub is_origin : Origin → Conn → Bool
is_origin (from_conn id) c = is_conn id c
is_origin from_bus c = false

-- The sockets that a broadcast reaches, in the order of the room.
abbrev pub receivers : List Conn → Origin → List Conn
receivers conns origin = keep (λ c. not (is_origin origin c) && c.open_) conns

-- Ids are added to the set of the socket, or taken from it.
abbrev has : List ℕ → ℕ → Bool
has ids i = any (λ j. j == i) ids

abbrev pub add_ids : List ℕ → List ℕ → List ℕ
add_ids [] ids = ids
add_ids (i ∷ more) ids = add_ids more (if has ids i then ids else ids ++ i ∷ [])

abbrev pub own : Changes → Conn → Conn
own ch c = record c {
  awareness_ids = keep (λ i. not (has ch.removed i)) (add_ids ch.present c.awareness_ids);
}

abbrev pub owned : Origin → Changes → List Conn → List Conn
owned (from_conn id) ch conns = map (λ c. if is_conn id c then own ch c else c) conns
owned from_bus ch conns = conns

-- A sync message starts with the kind of its step.
abbrev pub starts_step1 : ℕ → Option (ℕ × Bytes) → Option Bool
starts_step1 step1 none = none
starts_step1 step1 (some (kind, rest)) = some (kind == step1)

module _ (y : Yjs) (p : Protocol y) (bus_enabled : Bool) where
  unfoldable pub send : Conn → Message → Room y p → Room y p
  send c message r = if c.open_ then record r { sent = r.sent ++ (c.id, message) ∷ [] } else r

  unfoldable pub reject : ℕ → CloseCode → Room y p → Room y p
  reject id code r = record r {
    conns = map (λ c. if is_conn id c then record c { open_ = false } else c) r.conns;
    closed = r.closed ++ (id, code) ∷ [];
  }

  broadcast_to : List Conn → Message → Origin → Room y p → Room y p
  broadcast_to [] message origin r = r
  broadcast_to (c ∷ peers) message origin r =
      broadcast_to peers message origin (if is_origin origin c then r else send c message r)

  pub broadcast : Message → Origin → Room y p → Room y p
  unfolding broadcast_to
  broadcast message origin r = broadcast_to r.conns message origin r

  publish_doc : DocFrame → Origin → Room y p → Room y p
  publish_doc frame (from_conn id) r =
      if bus_enabled then record r { published = r.published ++ frame ∷ [] } else r
  publish_doc frame from_bus r = r

  -- The observer of the document: first the sockets, then the bus.
  on_doc_update : Option Bytes → Origin → Room y p → Room y p
  unfolding broadcast publish_doc
  on_doc_update none origin r = r
  on_doc_update (some update) origin r =
      publish_doc (sync_frame update) origin (broadcast (sync_message update) origin r)

  -- `Y.applyUpdate` with an origin, with what the observer does then.
  pub apply_update : Bytes → Origin → Room y p → Room y p
  unfolding on_doc_update
  apply_update update origin r =
      on_doc_update (p.update_event r.ydoc update) origin
        (record r { ydoc = y.apply r.ydoc update })

  -- The observer of the presence.
  on_awareness_update : Option Changes → Origin → Room y p → Room y p
  unfolding broadcast publish_doc
  on_awareness_update none origin r = r
  on_awareness_update (some ch) origin r =
      let payload = p.encode_awareness r.presence (ch.present ++ ch.removed) in
      publish_doc (awareness_frame payload) origin (
        broadcast (awareness_message payload) origin (record r { conns = owned origin ch r.conns }))

  apply_presence : Option (p.Awareness × Option Changes) → Origin → Room y p → Option (Room y p)
  unfolding on_awareness_update
  apply_presence none origin r = none
  apply_presence (some (presence, ch)) origin r =
      some (on_awareness_update ch origin (record r { presence = presence }))

  -- `applyRemoteFrame`: a frame that throws is dropped.
  abbrev or_same : Option (Room y p) → Room y p → Room y p
  or_same none r = r
  or_same (some r') r = r'

  pub apply_remote_frame : DocFrame → Room y p → Room y p
  unfolding apply_update apply_presence
  apply_remote_frame (sync_frame payload) r = apply_update payload from_bus r
  apply_remote_frame (awareness_frame payload) r =
      or_same (apply_presence (p.apply_awareness r.presence payload) from_bus r) r

  -- `isSyncStep1`, on what follows the message type.
  pub is_sync_step1 : Bytes → Option Bool
  is_sync_step1 rest = starts_step1 p.message_sync_step1 (p.read_var_uint rest)

  abbrev is_nonempty : Bytes → Bool
  is_nonempty [] = false
  is_nonempty (b ∷ bs) = true

  handle_sync : Option SyncResult → Conn → Room y p → Option (Room y p)
  unfolding apply_update send
  handle_sync none c r = none
  handle_sync (some (replies reply)) c r =
      some (if is_nonempty reply then send c (sync_reply reply) r else r)
  handle_sync (some (applies update)) c r = some (apply_update update (from_conn c.id) r)

  -- The guard: a socket that may not write is heard only when it asks.
  gate : Option Bool → Bytes → Conn → Room y p → Option (Room y p)
  unfolding handle_sync
  gate none rest c r = none
  gate (some false) rest c r = some r
  gate (some true) rest c r = handle_sync (p.read_sync_message rest r.ydoc) c r

  handle_awareness : Option Bytes → Conn → Room y p → Option (Room y p)
  unfolding apply_presence
  handle_awareness none c r = none
  handle_awareness (some payload) c r =
      apply_presence (p.apply_awareness r.presence payload) (from_conn c.id) r

  -- The branches of the switch; none where the `try` block throws.
  dispatch : Option MessageType → Bytes → Conn → Room y p → Option (Room y p)
  unfolding gate handle_awareness is_sync_step1 reject
  dispatch (some sync) rest c r =
      gate (if c.can_write then some true else is_sync_step1 rest) rest c r
  dispatch (some awareness) rest c r = handle_awareness (p.read_bytes rest) c r
  dispatch none rest c r = some (reject c.id bad_request r)

  read : Option (ℕ × Bytes) → Conn → Room y p → Option (Room y p)
  unfolding dispatch
  read none c r = none
  read (some (kind, rest)) c r = dispatch (message_type kind) rest c r

  caught : Option (Room y p) → Conn → Room y p → Room y p
  unfolding reject
  caught none c r = reject c.id bad_request r
  caught (some r') c r = r'

  pub handle_message : Bytes → Conn → Room y p → Room y p
  unfolding read caught
  handle_message frame c r = caught (read (p.read_var_uint frame) c r) c r
