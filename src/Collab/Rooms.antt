-- ===== src/Collab/Rooms.antt =====
-- apps/server/src/modules/collab/room.ts: the map of rooms and the writes on the way. A room is named
-- by the number of its promise; what runs between two awaits is one operation. `conn_doc` is the
-- document of a connection, which does not change.
use collab_ide.Base.{
  ℕ, suc, ◌≡◌, Bool, true, false, not, List, [], ◌∷◌, ◌++◌, Option, none, some, Str, ◌===◌, ◌==◌,
  any, keep, if◌then◌else◌,
}
pub mod Maps
pub mod Sound
pub mod Keeps
pub mod Joins
pub mod Leaves
pub mod Steps

pub data Stage : Type 0 where
  unborn loading missing failed opened flushing destroyed : Stage
  -- It waits for the final write of an earlier room of its document.
  waiting : ℕ → Stage

-- A Map by numbers or by document ids, as a function.
abbrev pub put {ℓ} : {A : Type ℓ} → (ℕ → A) → ℕ → A → ℕ → A
put f k v j = if j == k then v else f j

abbrev pub put_doc {ℓ} : {A : Type ℓ} → (Str → A) → Str → A → Str → A
put_doc f k v j = if j === k then v else f j

pub record Rooms : Type 0 where
  pub rooms : Str → Option ℕ
  pub pending_writes : Str → Option ℕ
  pub next : ℕ
  pub doc_of : ℕ → Str
  pub stage : ℕ → Stage
  pub conns : ℕ → List ℕ
  -- The room that a connection awaits, to join it or to leave it.
  pub joining : ℕ → Option ℕ
  pub leaving : ℕ → Option ℕ
  -- The documents given to `unsubscribeDoc`.
  pub unsubscribed : List Str

abbrev pub no_rooms : Rooms
no_rooms = record {
  rooms = λ d. none;
  pending_writes = λ d. none;
  next = 0;
  doc_of = λ p. [];
  stage = λ p. unborn;
  conns = λ p. [];
  joining = λ c. none;
  leaving = λ c. none;
  unsubscribed = [];
}

-- `rooms.get(docId) === pending`
abbrev pub is_current : Option ℕ → ℕ → Bool
is_current none p = false
is_current (some q) p = q == p

abbrev pub delete_current : Str → ℕ → (Str → Option ℕ) → Str → Option ℕ
delete_current d p m = if is_current (m d) p then put_doc m d none else m

-- `createRoom` up to its first await.
abbrev pub first_stage : Option ℕ → Stage
first_stage none = loading
first_stage (some w) = waiting w

abbrev pub without_conn : ℕ → List ℕ → List ℕ
without_conn conn cs = keep (λ c. not (c == conn)) cs

module _ (conn_doc : ℕ → Str) where
  abbrev pub await_room : ℕ → Str → Option ℕ → Rooms → Rooms
  await_room conn d (some p) s = record s { joining = put s.joining conn (some p) }
  await_room conn d none s = record s {
    rooms = put_doc s.rooms d (some s.next);
    next = suc s.next;
    doc_of = put s.doc_of s.next d;
    stage = put s.stage s.next (first_stage (s.pending_writes d));
    conns = put s.conns s.next [];
    joining = put s.joining conn (some s.next);
  }

  unfoldable pub join_room : ℕ → Rooms → Rooms
  join_room conn s = await_room conn (conn_doc conn) (s.rooms (conn_doc conn)) s

  -- `createRoom` after its wait for the earlier write, and at its end.
  abbrev pub load_room : ℕ → Rooms → Rooms
  load_room p s = record s { stage = put s.stage p loading }

  abbrev pub room_created : ℕ → Bool → Rooms → Rooms
  room_created p exists s = record s { stage = put s.stage p (if exists then opened else missing) }

  -- `createRoom` throws: its promise, which is rejected, stays in the map.
  abbrev pub creation_failed : ℕ → Rooms → Rooms
  creation_failed p s = record s { stage = put s.stage p failed }

  -- `joinRoom` after its await.
  abbrev pub add_conn : ℕ → ℕ → Rooms → Rooms
  add_conn conn p s = record s {
    conns = put s.conns p (s.conns p ++ conn ∷ []);
    joining = put s.joining conn none;
  }

  unfoldable pub room_joined : ℕ → ℕ → Stage → Rooms → Rooms
  room_joined conn p missing s = record s {
    rooms = delete_current (conn_doc conn) p s.rooms;
    joining = put s.joining conn none;
  }
  room_joined conn p failed s = record s { joining = put s.joining conn none }
  room_joined conn p stage s =
      if is_current (s.rooms (conn_doc conn)) p then add_conn conn p s else join_room conn s

  abbrev pub await_leave : ℕ → Option ℕ → Rooms → Rooms
  await_leave conn none s = s
  await_leave conn (some p) s = record s { leaving = put s.leaving conn (some p) }

  unfoldable pub leave_room : ℕ → Rooms → Rooms
  leave_room conn s = await_leave conn (s.rooms (conn_doc conn)) s

  -- `leaveRoom` after its await: the last one out takes the room from the map and starts its write.
  abbrev pub evict : ℕ → ℕ → List ℕ → Rooms → Rooms
  evict conn p (c ∷ cs) s = s
  evict conn p [] s = record s {
    rooms = delete_current (conn_doc conn) p s.rooms;
    stage = put s.stage p flushing;
    unsubscribed = s.unsubscribed ++ conn_doc conn ∷ [];
    pending_writes = put_doc s.pending_writes (conn_doc conn) (some p);
  }

  abbrev pub remove_conn : ℕ → ℕ → Rooms → Rooms
  remove_conn conn p s = record s {
    conns = put s.conns p (without_conn conn (s.conns p));
    leaving = put s.leaving conn none;
  }

  unfoldable pub room_left : ℕ → ℕ → Stage → Rooms → Rooms
  room_left conn p missing s = record s { leaving = put s.leaving conn none }
  room_left conn p failed s = record s { leaving = put s.leaving conn none }
  room_left conn p stage s = evict conn p (without_conn conn (s.conns p)) (remove_conn conn p s)

  -- The end of the write, whether it failed or not; then the room is destroyed.
  unfoldable pub write_ended : ℕ → Rooms → Rooms
  write_ended p s = record s {
    pending_writes = delete_current (s.doc_of p) p s.pending_writes;
    stage = put s.stage p destroyed;
  }
