-- ===== src/Projects.antt =====
-- apps/server/src/modules/projects/service.ts: projects and their members. A call returns the new
-- state with its result, or the error that it throws; its last component lists what it asks of the
-- collaboration layer and of the document store after the commit.
pub mod Counts
pub mod Owners
pub mod Race
use collab_ide.Base.{
  ℕ, ◌≡◌, Bool, true, false, ◌&&◌, not, Option, none, some, List, [], ◌∷◌, ◌++◌, map, Str, text,
  ◌===◌, any, ◌==◌, AppError, Result, ok, err, ◌>>=◌, ◌>>◌, throw_if, or_throw, conflict,
  record_missing, is_some,
}
use collab_ide.Database.{Table, find_first, find_many, count_rows}
use collab_ide.Shared.Protocol.{make_doc_id}
use collab_ide.Auth.Authorize.{Role, viewer, editor, owner, User, Member, is_member, same_member}
use collab_ide.Files.Rows.{FileRow, same_path}
use collab_ide.Effects.{Effect, disconnect_project_user, disconnect_project, delete_doc}

pub record Project : Type 0 where
  pub id : Str
  pub name : Str
  pub owner_id : Str

unfoldable pub is_project : Str → Project → Bool
is_project id p = p.id === id

unfoldable pub same_project : Project → Project → Bool
unfolding is_project
same_project p q = is_project p.id q

pub record MemberSummary : Type 0 where
  pub user_id : Str
  pub email : Str
  pub display_name : Str
  pub role : Role

-- The tables that the service works on.
pub record Tables : Type 1 where
  pub projects : Table Project same_project
  pub members : Table Member same_member
  pub files : Table FileRow same_path

pub record State (t : Tables) : Type 0 where
  pub projects : t.projects.Db
  pub members : t.members.Db
  pub files : t.files.Db

unfoldable pub is_owner : Role → Bool
is_owner owner = true
is_owner editor = false
is_owner viewer = false

unfoldable pub owns : Str → Member → Bool
unfolding is_owner
owns project_id m = (m.project_id === project_id) && is_owner m.role

abbrev pub user_not_found : AppError
user_not_found = record {
  status = 404;
  code = text "USER_NOT_FOUND";
  message = text "No account exists for that email";
}

abbrev pub already_member : AppError
already_member = record {
  status = 409;
  code = text "ALREADY_MEMBER";
  message = text "That user is already a member of this project";
}

abbrev pub member_not_found : AppError
member_not_found = record {
  status = 404;
  code = text "MEMBER_NOT_FOUND";
  message = text "That user is not a member of this project";
}

abbrev pub cannot_remove_self : AppError
cannot_remove_self = record {
  status = 409;
  code = text "CANNOT_REMOVE_SELF";
  message = text "You cannot remove yourself from a project";
}

abbrev pub last_owner : AppError
last_owner = record {
  status = 409;
  code = text "LAST_OWNER";
  message = text "A project must always have at least one owner";
}

abbrev summary : User → Role → MemberSummary
summary user role = record {
  user_id = user.id;
  email = user.email;
  display_name = user.display_name;
  role = role;
}

abbrev in_project : Str → Member → Bool
in_project project_id m = m.project_id === project_id

module _ (t : Tables) where
  -- The project row and its OWNER membership, in one transaction. `id` is the new row's id.
  unfoldable pub create_project : Str → User → Str → State t → Result (Project × State t)
  create_project id user name s = do
    let project : Project = record { id = id; name = name; owner_id = user.id }
    projects ← or_throw (t.projects.create project s.projects) conflict
    members ←
        or_throw
          (t.members.create (record { project_id = id; user = user; role = owner }) s.members)
          conflict
    ok (project, record s { projects = projects; members = members })

  pub rename_project : Str → Str → State t → Result (State t)
  rename_project project_id name s = do
    throw_if (not (is_some (find_first t.projects (is_project project_id) s.projects)))
        record_missing
    ok (record s {
      projects =
          t.projects.update_many (is_project project_id) (λ p. record p { name = name }) s.projects;
    })

  -- The delete cascades to the memberships and the files of the project.
  pub delete_project : Str → State t → Result (State t × List Effect)
  delete_project project_id s = do
    let files : List FileRow = find_many t.files (λ f. f.project_id === project_id) s.files
    throw_if (not (is_some (find_first t.projects (is_project project_id) s.projects)))
        record_missing
    ok (
      record s {
        projects = t.projects.delete_many (is_project project_id) s.projects;
        members = t.members.delete_many (in_project project_id) s.members;
        files = t.files.delete_many (λ f. f.project_id === project_id) s.files;
      },
      disconnect_project project_id ∷ map (λ f. delete_doc (make_doc_id project_id f.id)) files,
    )

  unfoldable pub count_owners : Str → t.members.Db → ℕ
  count_owners project_id d = count_rows t.members (owns project_id) d

  -- `found` is the account with the email, which the user table holds or not.
  unfoldable pub add_member : Str → Option User → Role → State t → Result (MemberSummary × State t)
  add_member project_id found role s = do
    user ← or_throw found user_not_found
    throw_if (is_some (find_first t.members (is_member project_id user.id) s.members))
        already_member
    members ←
        or_throw
          (t.members.create (record { project_id = project_id; user = user; role = role })
            s.members)
          conflict
    ok (summary user role, record s { members = members })

  -- Everything in `changeMemberRole` before the update: the reads and the refusals.
  unfoldable pub check_change : Str → Str → Role → t.members.Db → Result Member
  unfolding count_owners is_owner
  check_change project_id user_id role d = do
    member ← or_throw (find_first t.members (is_member project_id user_id) d) member_not_found
    throw_if (is_owner member.role && not (is_owner role) && (count_owners project_id d == 1))
        last_owner
    ok member

  unfoldable pub commit_change : Str → Str → Role → t.members.Db → t.members.Db
  commit_change project_id user_id role d =
      t.members.update_many (is_member project_id user_id) (λ m. record m { role = role }) d

  pub change_member_role :
      Str → Str → Role → State t → Result (MemberSummary × State t × List Effect)
  unfolding check_change commit_change
  change_member_role project_id user_id role s = do
    member ← check_change project_id user_id role s.members
    ok (
      summary member.user role,
      record s { members = commit_change project_id user_id role s.members },
      disconnect_project_user project_id user_id ∷ [],
    )

  pub remove_member : Str → Str → Str → State t → Result (State t × List Effect)
  unfolding count_owners is_owner
  remove_member project_id user_id acting_user_id s = do
    member ←
        or_throw (find_first t.members (is_member project_id user_id) s.members) member_not_found
    throw_if (user_id === acting_user_id) cannot_remove_self
    throw_if (is_owner member.role && (count_owners project_id s.members == 1)) last_owner
    ok (
      record s { members = t.members.delete_many (is_member project_id user_id) s.members },
      disconnect_project_user project_id user_id ∷ [],
    )
