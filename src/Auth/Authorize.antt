-- ===== src/Auth/Authorize.antt =====
-- apps/server/src/modules/auth/authorize.ts, over the membership table of schema.prisma.
pub mod Laws
use collab_ide.Base.{
  ℕ, ◌≡◌, Bool, ◌&&◌, not, Option, none, some, List, [], ◌∷◌, ◌++◌, Str, text, ◌===◌, length, leb,
  ltb, ◌==◌, AppError, Result, ok, err, ◌>>=◌, ◌>>◌, throw_if, or_throw, if◌then◌else◌,
}
use collab_ide.Database.{Table, find_first}

pub data Role : Type 0 where
  viewer editor owner : Role

unfoldable pub role_rank : Role → ℕ
role_rank viewer = 0
role_rank editor = 1
role_rank owner = 2

unfoldable pub role_name : Role → Str
role_name viewer = text "VIEWER"
role_name editor = text "EDITOR"
role_name owner = text "OWNER"

pub record User : Type 0 where
  pub id : Str
  pub email : Str
  pub display_name : Str

-- A row of ProjectMember with its user joined, as the services select it.
pub record Member : Type 0 where
  pub project_id : Str
  pub user : User
  pub role : Role

-- The unique key projectId_userId.
unfoldable pub is_member : Str → Str → Member → Bool
is_member project_id user_id m = (m.project_id === project_id) && (m.user.id === user_id)

unfoldable pub same_member : Member → Member → Bool
unfolding is_member
same_member m n = is_member m.project_id m.user.id n

unfoldable pub has_role : Role → Role → Bool
unfolding role_rank
has_role actual minimum = leb (role_rank minimum) (role_rank actual)

abbrev pub not_found : AppError
not_found = record {
  status = 404;
  code = text "PROJECT_NOT_FOUND";
  message = text "Project not found";
}

pub forbidden : Role → AppError
forbidden min_role = record {
  status = 403;
  code = text "FORBIDDEN";
  message = text "This action requires the " ++ role_name min_role ++ text " role";
}

module _ (members : Table Member same_member) where
  unfoldable pub assert_project_access : Str → Str → Role → members.Db → Result Member
  assert_project_access user_id project_id min_role d = do
    membership ← or_throw (find_first members (is_member project_id user_id) d) not_found
    throw_if (not (has_role membership.role min_role)) (forbidden min_role)
    ok membership

  -- `requireProjectRole`: the route parameter may be missing or empty.
  unfoldable pub project_role_guard : Role → Option Str → Str → members.Db → Result Member
  project_role_guard min_role none user_id d = err not_found
  project_role_guard min_role (some project_id) user_id d = do
    throw_if (length project_id == 0) not_found
    assert_project_access user_id project_id min_role d
