-- ===== src/Collab/Rooms/Steps.antt =====
-- The rooms over all orders of the steps of joining, leaving, loading and writing.
use collab_ide.Base.{ℕ, ◌≡◌, ◌≢◌, ◌⊎◌, inl, inr, refl, ap, sym, subst, ◌∙◌, Bool, true, some, Str}
use collab_ide.Collab.Rooms.{
  loading, opened, flushing, destroyed, waiting, Rooms, no_rooms, join_room, load_room,
  room_created, creation_failed, room_joined, leave_room, room_left, write_ended,
}
use collab_ide.Collab.Rooms.Maps.{is_settled, holds}
use collab_ide.Collab.Rooms.Sound.{Sound}
use collab_ide.Collab.Rooms.Keeps.{
  load_room-Sound, loading-quiet, room_created-Sound, creation_failed-Sound, join_room-Sound,
}
use collab_ide.Collab.Rooms.Joins.{room_joined-Sound}
use collab_ide.Collab.Rooms.Leaves.{leave_room-Sound, room_left-Sound, write_ended-Sound}

module _ (conn_doc : ℕ → Str) where
  -- A connection leaves after it has joined, by the one event that its socket is closed.
  pub data Step (s : Rooms) : Rooms → Type 0 where
    joins : (conn : ℕ) → Step s (join_room conn_doc conn s)
    loads :
        (p w : ℕ) → s.stage p ≡ waiting w → s.stage w ≡ destroyed → Step s (load_room conn_doc p s)
    creates :
        (p : ℕ) (exists : Bool) → s.stage p ≡ loading → Step s (room_created conn_doc p exists s)
    fails : (p : ℕ) → s.stage p ≡ loading → Step s (creation_failed conn_doc p s)
    joined :
        (conn p : ℕ)
        → s.joining conn ≡ some p
        → is_settled (s.stage p) ≡ true
        → Step s (room_joined conn_doc conn p (s.stage p) s)
    leaves : (conn p : ℕ) → holds conn (s.conns p) ≡ true → Step s (leave_room conn_doc conn s)
    left :
        (conn p : ℕ)
        → s.leaving conn ≡ some p
        → is_settled (s.stage p) ≡ true
        → Step s (room_left conn_doc conn p (s.stage p) s)
    writes : (p : ℕ) → s.stage p ≡ flushing → Step s (write_ended conn_doc p s)

  pub data Reach (s : Rooms) : Rooms → Type 0 where
    here : Reach s s
    next : {u w : Rooms} → Reach s u → Step u w → Reach s w

  Step-Sound : {s t : Rooms} → Step s t → Sound conn_doc s → Sound conn_doc t
  Step-Sound {s} (joins conn) v = join_room-Sound conn_doc conn s v
  Step-Sound {s} (loads p w waits done) v = load_room-Sound conn_doc p w s waits done v
  Step-Sound {s} (creates p exists load) v = room_created-Sound conn_doc p exists s load v
  Step-Sound {s} (fails p load) v = creation_failed-Sound conn_doc p s load v
  Step-Sound {s} (joined conn p awaits settled) v = room_joined-Sound conn_doc conn p s settled v
  Step-Sound {s} (leaves conn p member) v = leave_room-Sound conn_doc conn p s member v
  Step-Sound {s} (left conn p awaits settled) v =
      let (live, doc, mapped) = v.held p conn (v.leaver conn p awaits) in
      subst (λ st. Sound conn_doc (room_left conn_doc conn p st s)) (sym live)
        (room_left-Sound conn_doc conn p s awaits v)
  Step-Sound {s} (writes p flush) v = write_ended-Sound conn_doc p s flush v

  Reach-Sound : {s t : Rooms} → Reach s t → Sound conn_doc s → Sound conn_doc t
  Reach-Sound here v = v
  Reach-Sound (next r step) v = Step-Sound step (Reach-Sound r v)

  no_rooms-Sound : Sound conn_doc no_rooms
  no_rooms-Sound = record {
    fresh = λ p le. (refl, refl);
    mapped = λ d p h. cc;
    held = λ p c h. cc;
    making = λ p h. cc;
    writing = λ p h. cc;
    written = λ d w h. cc;
    blocked = λ d p w h k. cc;
    leaver = λ c p h. cc;
  }

  -- In every order of the steps, the connections to a document are all in one room, which is open and
  -- is the one in the map.
  pub one_room :
      (s : Rooms) (c d p q : ℕ)
      → Reach no_rooms s
      → holds c (s.conns p) ≡ true
      → holds d (s.conns q) ≡ true
      → conn_doc c ≡ conn_doc d
      → (p ≡ q) × (s.stage p ≡ opened) × (s.rooms (conn_doc c) ≡ some p)
  one_room s c d p q r in_p in_q same =
      let v = Reach-Sound r no_rooms-Sound in
      let (live, doc, mapped) = v.held p c in_p in
      let (live', doc', mapped') = v.held q d in_q in
      let here = ap s.rooms doc ∙ mapped in
      let there = ap s.rooms (same ∙ doc') ∙ mapped' in (cc (sym here ∙ there), live, here)

  -- In every order of the steps, no final write of a document is on the way while a room of the
  -- document is being read from the store, or is open in the map.
  pub no_write_on_the_way :
      (s : Rooms) (p w : ℕ)
      → Reach no_rooms s
      → (s.stage p ≡ loading) ⊎ ((s.stage p ≡ opened) × (s.rooms (s.doc_of p) ≡ some p))
      → s.stage w ≡ flushing
      → s.doc_of w ≢ s.doc_of p
  no_write_on_the_way s p w r (inl load) flush same =
      let v = Reach-Sound r no_rooms-Sound in
      let quiet = loading-quiet conn_doc p s load v in
      cc (sym quiet ∙ ap s.pending_writes (sym same) ∙ v.writing w flush)
  no_write_on_the_way s p w r (inr (live, mapped)) flush same =
      let v = Reach-Sound r no_rooms-Sound in
      let pending = ap s.pending_writes (sym same) ∙ v.writing w flush in
      cc (sym live ∙ v.blocked (s.doc_of p) p w mapped pending)
