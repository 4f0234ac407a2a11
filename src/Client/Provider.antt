-- ===== src/Client/Provider.antt =====
-- One document, one socket: apps/web/src/features/collab/CollabProvider.ts. The document and the
-- presence are the ones of yjs and y-protocols. The browser delivers the events of the current
-- socket only, since the listeners of an earlier one are removed.
use collab_ide.Base.{
  ℕ, zero, suc, ◌+◌, ◌≡◌, Bool, true, false, not, ◌&&◌, ◌||◌, List, [], ◌∷◌, ◌++◌, Option, none,
  some, Str, ltb, ◌==◌, if◌then◌else◌, is_some,
}
use collab_ide.Client.Reconnect.{is_terminal_close, backoff_delay}
use collab_ide.Persistence.Yjs.{Bytes}
pub mod Sockets
pub mod Keeps
pub mod Closed

pub data CollabStatus : Type 0 where
  connecting synced reconnecting closed : CollabStatus

-- The document and the presence of the libraries, as far as the provider calls them.
pub record SyncDoc : Type 1 where
  pub Doc : Type 0
  pub Awareness : Type 0
  pub write_sync_step1 : Doc → Bytes
  -- What a sync message does to the document, and the reply to it.
  pub read_sync_message : Bytes → Doc → Doc × Option Bytes
  pub set_local_state : Awareness → Awareness
  pub encode_awareness : Awareness → Bytes
  pub apply_awareness : Bytes → Awareness → Awareness

pub data ClientMessage : Type 0 where
  sync_message : Bytes → ClientMessage
  update_message : Bytes → ClientMessage
  awareness_message : Bytes → ClientMessage

-- A message from the server, by its type.
pub data ServerMessage : Type 0 where
  sync_received : Bytes → ServerMessage
  awareness_received : Bytes → ServerMessage
  other_received : ServerMessage

-- `this.socket`: null, or a socket by its readyState; `gone` is one whose close event has come.
pub data SocketState : Type 0 where
  no_socket opening open_ gone : SocketState

pub data Origin : Type 0 where
  remote local : Origin

pub record Provider (y : SyncDoc) : Type 0 where
  pub ydoc : y.Doc
  pub awareness : y.Awareness
  pub status : CollabStatus
  pub close_code : ℕ
  pub close_reason : Str
  pub ready : Bool
  pub socket : SocketState
  -- The delay of the timer that is set.
  pub retry : Option ℕ
  pub attempt : ℕ
  pub destroyed : Bool
  -- The sockets made, and those that `detachSocket` has closed.
  pub made : ℕ
  pub detached : ℕ
  pub sent : List ClientMessage

module _ (y : SyncDoc) (sample : ℕ → ℕ) where
  abbrev pub is_open : SocketState → Bool
  is_open open_ = true
  is_open no_socket = false
  is_open opening = false
  is_open gone = false

  unfoldable pub connect : Provider y → Provider y
  connect s = if s.destroyed then s else record s { socket = opening; made = suc s.made }

  abbrev pub detach : SocketState → Provider y → Provider y
  detach no_socket s = s
  detach opening s = record s { socket = no_socket; detached = suc s.detached }
  detach open_ s = record s { socket = no_socket; detached = suc s.detached }
  detach gone s = record s { socket = no_socket; detached = suc s.detached }

  abbrev pub detach_socket : Provider y → Provider y
  detach_socket s = detach s.socket s

  -- What the constructor leaves.
  unfoldable pub new_provider : y.Doc → y.Awareness → Provider y
  unfolding connect
  new_provider ydoc awareness = connect (record {
    ydoc = ydoc;
    awareness = y.set_local_state awareness;
    status = connecting;
    close_code = 0;
    close_reason = [];
    ready = false;
    socket = no_socket;
    retry = none;
    attempt = 0;
    destroyed = false;
    made = 0;
    detached = 0;
    sent = [];
  })

  unfoldable pub destroy : Provider y → Provider y
  destroy s = if s.destroyed then s else detach_socket (record s { destroyed = true; retry = none })

  abbrev pub set_ready : Provider y → Provider y
  set_ready s = if s.ready || s.destroyed then s else record s { ready = true }

  -- The local store has been read; a document that was restored is ready.
  unfoldable pub local_synced : Bool → Provider y → Provider y
  local_synced restored s = if restored then set_ready s else s

  abbrev pub send : ClientMessage → Provider y → Provider y
  send message s =
      if s.destroyed || not (is_open s.socket)
      then s
      else record s { sent = s.sent ++ message ∷ [] }

  -- The observers of the document and of the presence; traffic that was applied is not sent back.
  unfoldable pub handle_doc_update : Bytes → Origin → Provider y → Provider y
  handle_doc_update update remote s = s
  handle_doc_update update local s = send (update_message update) s

  unfoldable pub handle_awareness_update : Origin → Provider y → Provider y
  handle_awareness_update remote s = s
  handle_awareness_update local s = send (awareness_message (y.encode_awareness s.awareness)) s

  unfoldable pub handle_open : Provider y → Provider y
  unfolding handle_awareness_update
  handle_open s =
      let asked = send (sync_message (y.write_sync_step1 s.ydoc)) s in
      handle_awareness_update local (record asked { awareness = y.set_local_state asked.awareness })

  abbrev pub is_reconnecting : CollabStatus → Bool
  is_reconnecting reconnecting = true
  is_reconnecting connecting = false
  is_reconnecting synced = false
  is_reconnecting closed = false

  unfoldable pub handle_online : Provider y → Provider y
  unfolding connect
  handle_online s =
      if s.destroyed || not (is_reconnecting s.status)
      then s
      else connect (detach_socket (record s { retry = none }))

  abbrev pub reply : Option Bytes → Provider y → Provider y
  reply none s = s
  reply (some bytes) s = send (sync_message bytes) s

  unfoldable pub handle_message : ServerMessage → Provider y → Provider y
  handle_message (sync_received bytes) s =
      let result = y.read_sync_message bytes s.ydoc in
      record (set_ready (reply result.1 (record s { ydoc = result.0 }))) {
        attempt = 0;
        status = synced;
      }
  handle_message (awareness_received bytes) s = record s {
    awareness = y.apply_awareness bytes s.awareness;
  }
  handle_message other_received s = s

  unfoldable pub handle_close : ℕ → Str → Provider y → Provider y
  handle_close code reason s =
      if s.destroyed
      then s
      else (if is_terminal_close code
          then record s { socket = gone; close_code = code; close_reason = reason; status = closed }
          else record s {
            socket = gone;
            close_code = code;
            close_reason = reason;
            status = reconnecting;
            retry = some (backoff_delay sample s.attempt);
            attempt = suc s.attempt;
          })

  unfoldable pub retry_fired : Provider y → Provider y
  unfolding connect
  retry_fired s = connect (detach_socket (record s { retry = none }))
