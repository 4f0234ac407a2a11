-- ===== src/Examples/Join.antt =====
-- An editor whose room is still being made.
use collab_ide.Base.{◌≡◌, refl, true, false, none, some, [], ◌∷◌, ok, Str, ◌===◌}
use collab_ide.Database.Memory.{memory}
use collab_ide.Auth.Authorize.{
  Member, viewer, editor, same_member, is_member, has_role, role_rank, assert_project_access,
}
use collab_ide.Collab.Join.{
  Socket, Hall, joined, on_close, disconnect_project_user, authorize, all_rooms,
}
use collab_ide.Shared.Protocol.{gone}

abbrev project : Str
project = b'p' ∷ []

abbrev user : Str
user = b'u' ∷ []

abbrev member : Member
member = record {
  project_id = project;
  user = record { id = user; email = []; display_name = [] };
  role = editor;
}

abbrev socket : Socket
socket = record {
  id = 1;
  user_id = user;
  doc = record { project_id = project; file_id = b'f' ∷ [] };
  role = none;
  can_write = false;
  open_ = true;
}

abbrev empty_hall : Hall
empty_hall = record { waiting = []; conns = []; closed = [] }

known :
    assert_project_access (memory Member same_member) user project viewer (member ∷ []) ≡ ok member
unfolding assert_project_access has_role role_rank is_member ◌===◌
known = refl

-- A socket that closes after its access was read and before it has joined is put into its room all the same.
closed_early :
    (joined 1 true
      (on_close 1 (authorize (memory Member same_member) socket (member ∷ []) empty_hall))).conns
    ≡ record socket { role = some editor; can_write = true; open_ = false } ∷ []
unfolding joined on_close authorize assert_project_access has_role role_rank is_member ◌===◌
closed_early = refl

-- A revocation reaches a socket that waits for its room.
revoked_waiting :
    (disconnect_project_user project user
      (λ id. some true)
      (authorize (memory Member same_member) socket (member ∷ []) empty_hall)).closed
    ≡ (1, gone) ∷ []
unfolding disconnect_project_user all_rooms authorize assert_project_access has_role role_rank
    is_member ◌===◌
revoked_waiting = refl
