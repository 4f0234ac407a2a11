-- ===== src/Collab/Messages/Fanout.antt =====
-- collab/syncHandler.ts: who is told of an edit, and who may make one.
use collab_ide.Base.{
  ℕ, ◌≡◌, ◌≢◌, refl, sym, ap, ◌∙◌, inl, inr, Bool, true, false, Option, none, some, List, [], ◌∷◌,
  ◌++◌, append_assoc, append-nil, map, if◌then◌else◌, Bool-cases,
}
use collab_ide.Persistence.Yjs.{Bytes, Yjs}
use collab_ide.Shared.Protocol.{MessageType, sync, awareness, message_type}
use collab_ide.Collab.Messages.{
  Changes, or_same, SyncResult, replies, applies, Protocol, Message, sync_message,
  awareness_message, DocFrame, sync_frame, awareness_frame, Origin, from_conn, from_bus, Conn, Room,
  is_origin, receivers, send, reject, broadcast_to, broadcast, publish_doc, on_doc_update,
  apply_update, apply_presence, on_awareness_update, apply_remote_frame, is_sync_step1,
  starts_step1, handle_sync, gate, handle_awareness, dispatch, read, caught, handle_message, owned,
}

-- One message to each of the sockets.
abbrev pub to_all : Message → List Conn → List (ℕ × Message)
to_all message cs = map (λ c. (c.id, message)) cs

-- What is published of a frame.
abbrev pub to_bus : Bool → Origin → DocFrame → List DocFrame
to_bus enabled (from_conn id) frame = if enabled then frame ∷ [] else []
to_bus enabled from_bus frame = []

-- Documented: a sync message of step 1 asks for the state and changes nothing.
abbrev pub Step1Asks : (y : Yjs) → Protocol y → Type 0
Step1Asks y p =
    (rest : Bytes) (d : y.Doc) (u : Bytes)
    → starts_step1 p.message_sync_step1 (p.read_var_uint rest) ≡ some true
    → p.read_sync_message rest d ≢ some (applies u)

module _ (y : Yjs) (p : Protocol y) (bus_enabled : Bool) where
  broadcast_to-sent :
      (cs : List Conn) (m : Message) (o : Origin) (r : Room y p)
      → broadcast_to y p bus_enabled cs m o r
        ≡ record r { sent = r.sent ++ to_all m (receivers cs o) }
  unfolding broadcast_to send
  broadcast_to-sent [] m o r = ap (λ l. record r { sent = l }) (sym (append-nil r.sent))
  broadcast_to-sent (c ∷ cs) m o r = elim (Bool-cases (is_origin o c)) [
    | inl own ↦ simp own (broadcast_to-sent cs m o r)
    | inr other ↦ elim (Bool-cases c.open_) [
      | inl up ↦
          simp (other, up)
            (broadcast_to-sent cs m o (record r { sent = r.sent ++ (c.id, m) ∷ [] })
              ∙ ap (λ l. record r { sent = l })
                  (append_assoc r.sent ((c.id, m) ∷ []) (to_all m (receivers cs o))))
      | inr down ↦ simp (other, down) (broadcast_to-sent cs m o r)
    ]
  ]

  publish_doc-published :
      (f : DocFrame) (o : Origin) (r : Room y p)
      → publish_doc y p bus_enabled f o r
        ≡ record r { published = r.published ++ to_bus bus_enabled o f }
  unfolding publish_doc
  publish_doc-published f (from_conn id) r = elim (Bool-cases bus_enabled) [
    | inl e ↦ simp e refl
    | inr e ↦ simp e (ap (λ l. record r { published = l }) (sym (append-nil r.published)))
  ]
  publish_doc-published f from_bus r =
      ap (λ l. record r { published = l }) (sym (append-nil r.published))

  -- An edit that brings something new is applied to the document; every other open socket of the room is sent it once, in the order of the room, and never the one that it came from; and it is published to the other servers once if a socket made it, and not at all if it came from them.
  pub apply_update-fanout :
      (u v : Bytes) (o : Origin) (r : Room y p)
      → p.update_event r.ydoc u ≡ some v
      → apply_update y p bus_enabled u o r ≡ record r {
        ydoc = y.apply r.ydoc u;
        sent = r.sent ++ to_all (sync_message v) (receivers r.conns o);
        published = r.published ++ to_bus bus_enabled o (sync_frame v);
      }
  unfolding apply_update on_doc_update broadcast
  apply_update-fanout u v o r fresh =
      let applied : Room y p = record r { ydoc = y.apply r.ydoc u } in
      let told = broadcast_to-sent r.conns (sync_message v) o applied in
      rw fresh (
        publish_doc-published (sync_frame v) o
          (broadcast y p bus_enabled (sync_message v) o applied)
        ∙ ap {A = Room y p} {B = Room y p}
            (λ s. record s { published = s.published ++ to_bus bus_enabled o (sync_frame v) }) told)

  broadcast_lem :
      (m : Message) (o : Origin) (r : Room y p)
      → ((broadcast y p bus_enabled m o r).ydoc ≡ r.ydoc)
        × ((broadcast y p bus_enabled m o r).published ≡ r.published)
  unfolding broadcast
  broadcast_lem m o r =
      let told = broadcast_to-sent r.conns m o r in
      (ap (λ s. s.ydoc) told, ap (λ s. s.published) told)

  publish_doc-ydoc :
      (f : DocFrame) (o : Origin) (r : Room y p) → (publish_doc y p bus_enabled f o r).ydoc ≡ r.ydoc
  publish_doc-ydoc f o r = ap (λ s. s.ydoc) (publish_doc-published f o r)

  on_doc_update-quiet :
      (e : Option Bytes) (r : Room y p)
      → (on_doc_update y p bus_enabled e from_bus r).published ≡ r.published
  unfolding on_doc_update publish_doc
  on_doc_update-quiet none r = refl
  on_doc_update-quiet (some v) r = (broadcast_lem (sync_message v) from_bus r).1

  abbrev told : p.Awareness → Changes → Message
  told presence ch = awareness_message (p.encode_awareness presence (ch.present ++ ch.removed))

  apply_presence-quiet :
      (o : Option (p.Awareness × Option Changes)) (r : Room y p)
      → (or_same y p bus_enabled (apply_presence y p bus_enabled o from_bus r) r).published
        ≡ r.published
  unfolding apply_presence on_awareness_update publish_doc
  apply_presence-quiet none r = refl
  apply_presence-quiet (some (presence, none)) r = refl
  apply_presence-quiet (some (presence, some ch)) r =
      let known : Room y p = record r { presence = presence; conns = owned from_bus ch r.conns } in
      (broadcast_lem (told presence ch) from_bus known).1

  -- Nothing that came from another server is published again, whatever the frame holds.
  pub apply_remote_frame-published :
      (f : DocFrame) (r : Room y p)
      → (apply_remote_frame y p bus_enabled f r).published ≡ r.published
  unfolding apply_remote_frame apply_update
  apply_remote_frame-published (sync_frame u) r =
      on_doc_update-quiet (p.update_event r.ydoc u) (record r { ydoc = y.apply r.ydoc u })
  apply_remote_frame-published (awareness_frame payload) r =
      apply_presence-quiet (p.apply_awareness r.presence payload) r

  -- A result that has left the document as it was.
  abbrev Same : Room y p → Option (Room y p) → Type 0
  Same r none = Unit
  Same r (some r') = r'.ydoc ≡ r.ydoc

  caught-ydoc :
      (o : Option (Room y p)) (c : Conn) (r : Room y p)
      → Same r o
      → (caught y p bus_enabled o c r).ydoc ≡ r.ydoc
  unfolding caught reject
  caught-ydoc none c r h = refl
  caught-ydoc (some r') c r h = h

  apply_presence-Same :
      (o : Option (p.Awareness × Option Changes)) (origin : Origin) (r : Room y p)
      → Same r (apply_presence y p bus_enabled o origin r)
  unfolding apply_presence on_awareness_update
  apply_presence-Same none origin r = tt
  apply_presence-Same (some (presence, none)) origin r = refl
  apply_presence-Same (some (presence, some ch)) origin r =
      let known : Room y p = record r { presence = presence; conns = owned origin ch r.conns } in
      publish_doc-ydoc (awareness_frame (p.encode_awareness presence (ch.present ++ ch.removed)))
        origin (broadcast y p bus_enabled (told presence ch) origin known)
      ∙ (broadcast_lem (told presence ch) origin known).0

  handle_awareness-Same :
      (o : Option Bytes) (c : Conn) (r : Room y p) → Same r (handle_awareness y p bus_enabled o c r)
  unfolding handle_awareness
  handle_awareness-Same none c r = tt
  handle_awareness-Same (some payload) c r =
      apply_presence-Same (p.apply_awareness r.presence payload) (from_conn c.id) r

  handle_sync-Same :
      (o : Option SyncResult) (c : Conn) (r : Room y p)
      → ((u : Bytes) → o ≢ some (applies u))
      → Same r (handle_sync y p bus_enabled o c r)
  unfolding handle_sync send
  handle_sync-Same none c r h = tt
  handle_sync-Same (some (replies [])) c r h = refl
  handle_sync-Same (some (replies (b ∷ bs))) c r h = elim (Bool-cases c.open_) [
    | inl up ↦ simp up refl
    | inr down ↦ simp down refl
  ]
  handle_sync-Same (some (applies u)) c r h = absurd (h u refl)

  gate-Same :
      (g : Option Bool) (rest : Bytes) (c : Conn) (r : Room y p)
      → Step1Asks y p
      → starts_step1 p.message_sync_step1 (p.read_var_uint rest) ≡ g
      → Same r (gate y p bus_enabled g rest c r)
  unfolding gate
  gate-Same none rest c r asks e = tt
  gate-Same (some false) rest c r asks e = refl
  gate-Same (some true) rest c r asks e =
      handle_sync-Same (p.read_sync_message rest r.ydoc) c r (λ u. asks rest r.ydoc u e)

  dispatch-Same :
      (kind : Option MessageType) (rest : Bytes) (c : Conn) (r : Room y p)
      → Step1Asks y p
      → c.can_write ≡ false
      → Same r (dispatch y p bus_enabled kind rest c r)
  unfolding dispatch is_sync_step1 reject
  dispatch-Same none rest c r asks low = refl
  dispatch-Same (some sync) rest c r asks low = simp low (gate-Same _ rest c r asks refl)
  dispatch-Same (some awareness) rest c r asks low = handle_awareness-Same (p.read_bytes rest) c r

  read-Same :
      (o : Option (ℕ × Bytes)) (c : Conn) (r : Room y p)
      → Step1Asks y p
      → c.can_write ≡ false
      → Same r (read y p bus_enabled o c r)
  unfolding read
  read-Same none c r asks low = tt
  read-Same (some (kind, rest)) c r asks low = dispatch-Same (message_type kind) rest c r asks low

  -- Whatever bytes a socket without the right to write sends, the document stays as it is, where the sync protocol answers step 1 without changing it.
  pub handle_message-read_only :
      (frame : Bytes) (c : Conn) (r : Room y p)
      → Step1Asks y p
      → c.can_write ≡ false
      → (handle_message y p bus_enabled frame c r).ydoc ≡ r.ydoc
  unfolding handle_message
  handle_message-read_only frame c r asks low =
      caught-ydoc (read y p bus_enabled (p.read_var_uint frame) c r) c r
        (read-Same (p.read_var_uint frame) c r asks low)
