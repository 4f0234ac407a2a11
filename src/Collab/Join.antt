-- ===== src/Collab/Join.antt =====
-- apps/server/src/modules/collab/syncHandler.ts: how a socket comes into a room and leaves it, and
-- the calls that take it out when its access has changed. `waiting` holds the sockets whose access
-- has been read and whose room is awaited; `conns` those in the rooms of all documents.
pub mod Revoked
use collab_ide.Base.{
  ℕ, Bool, true, false, ◌&&◌, not, Option, none, some, List, [], ◌∷◌, ◌++◌, map, any, keep, find,
  Str, ◌===◌, ◌==◌, Result, ok, err, AppError, if◌then◌else◌,
}
use collab_ide.Database.{Table}
use collab_ide.Shared.Protocol.{CloseCode, forbidden, not_found, gone, DocRef}
use collab_ide.Auth.Authorize.{
  Role, viewer, editor, Member, same_member, has_role, assert_project_access,
}

pub record Socket : Type 0 where
  pub id : ℕ
  pub user_id : Str
  pub doc : DocRef
  pub role : Option Role
  pub can_write : Bool
  pub open_ : Bool

pub record Hall : Type 0 where
  pub waiting : List Socket
  pub conns : List Socket
  pub closed : List (ℕ × CloseCode)

abbrev pub is_socket : ℕ → Socket → Bool
is_socket id s = s.id == id

abbrev refuse : Socket → CloseCode → Hall → Hall
refuse s code h = record h { closed = h.closed ++ (s.id, code) ∷ [] }

-- The `try` block around the access check and its `catch`.
unfoldable pub admit : Socket → Result Member → Hall → Hall
admit s (ok m) h = record h {
  waiting = h.waiting ++ record s { role = some m.role; can_write = has_role m.role editor } ∷ [];
}
admit s (err e) h = refuse s (if e.status == 403 then forbidden else not_found) h

abbrev without : ℕ → List Socket → List Socket
without id ss = keep (λ s. not (is_socket id s)) ss

-- What follows `await joinRoom`; `exists` says whether there is a room for the document.
unfoldable pub join : Option Socket → Bool → Hall → Hall
join none exists h = h
join (some s) true h = record h { waiting = without s.id h.waiting; conns = h.conns ++ s ∷ [] }
join (some s) false h = refuse s not_found (record h { waiting = without s.id h.waiting })

unfoldable pub joined : ℕ → Bool → Hall → Hall
unfolding join
joined id exists h = join (find (is_socket id) h.waiting) exists h

abbrev shut : (Socket → Bool) → Socket → Socket
shut p s = if p s then record s { open_ = false } else s

-- The socket closes. The handler that takes it out of its room is only set once it has joined.
unfoldable pub on_close : ℕ → Hall → Hall
on_close id h = record h {
  waiting = map (shut (is_socket id)) h.waiting;
  conns = without id h.conns;
}

-- `reject` for each of the sockets in the rooms that the test picks.
unfoldable pub reject_all : (Socket → Bool) → Hall → Hall
reject_all p h = record h {
  conns = map (shut p) h.conns;
  closed = h.closed ++ map (λ s. (s.id, gone)) (keep p h.conns);
}

abbrev pub of_user : Str → Str → Socket → Bool
of_user project_id user_id s = (s.doc.project_id === project_id) && (s.user_id === user_id)

-- What `await allRooms()` waits for: `settled` says of a socket whose room is awaited whether there is one, or nothing
-- where the socket, whose room was evicted, awaits a newer room. The sockets go on before the caller of allRooms.
abbrev pub came : (ℕ → Option Bool) → Bool → Socket → Bool
came settled exists s = is_outcome (settled s.id)
  where
    is_outcome : Option Bool → Bool
    is_outcome none = false
    is_outcome (some true) = exists
    is_outcome (some false) = not exists

unfoldable pub all_rooms : (ℕ → Option Bool) → Hall → Hall
all_rooms settled h = record h {
  waiting = keep (λ s. not (came settled true s) && not (came settled false s)) h.waiting;
  conns = h.conns ++ keep (came settled true) h.waiting;
  closed = h.closed ++ map (λ s. (s.id, not_found)) (keep (came settled false) h.waiting);
}

unfoldable pub disconnect_project_user : Str → Str → (ℕ → Option Bool) → Hall → Hall
unfolding reject_all
disconnect_project_user project_id user_id settled h =
    reject_all (of_user project_id user_id) (all_rooms settled h)

unfoldable pub disconnect_project : Str → (ℕ → Option Bool) → Hall → Hall
unfolding reject_all
disconnect_project project_id settled h =
    reject_all (λ s. s.doc.project_id === project_id) (all_rooms settled h)

unfoldable pub close_file_rooms : List Str → (ℕ → Option Bool) → Hall → Hall
unfolding reject_all
close_file_rooms file_ids settled h =
    reject_all (λ s. any (λ id. id === s.doc.file_id) file_ids) (all_rooms settled h)

module _ (members : Table Member same_member) where
  unfoldable pub authorize : Socket → members.Db → Hall → Hall
  unfolding admit
  authorize s d h = admit s (assert_project_access members s.user_id s.doc.project_id viewer d) h
