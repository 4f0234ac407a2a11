-- ===== src/Examples/Projects.antt =====
-- A project with two owners, each of whom is demoted.
use collab_ide.Base.{◌≡◌, ◌≢◌, refl, some, [], ◌∷◌, ok, err, Str, ◌===◌, arith}
use collab_ide.Database.Memory.{memory}
use collab_ide.Auth.Authorize.{User, Member, editor, owner, is_member, same_member}
use collab_ide.Files.Rows.{FileRow, same_path}
use collab_ide.Projects.{
  Project, is_project, same_project, Tables, State, is_owner, owns, create_project, add_member,
  check_change, commit_change, count_owners, last_owner,
}
use collab_ide.Projects.Owners.{Owned, Reach, here, next, created, added, Reach-Owned}
use collab_ide.Projects.Race.{overlapping_demotions}

abbrev tables : Tables
tables = record {
  projects = memory Project same_project;
  members = memory Member same_member;
  files = memory FileRow same_path;
}

abbrev project : Str
project = b'p' ∷ []

abbrev ann : User
ann = record { id = b'a' ∷ []; email = []; display_name = [] }

abbrev bob : User
bob = record { id = b'b' ∷ []; email = []; display_name = [] }

abbrev member : User → Member
member user = record { project_id = project; user = user; role = owner }

abbrev nothing : State tables
nothing = record { projects = []; members = []; files = [] }

abbrev p1 : Project
p1 = record { id = project; name = []; owner_id = ann.id }

abbrev one_owner : State tables
one_owner = record { projects = p1 ∷ []; members = member ann ∷ []; files = [] }

abbrev two_owners : State tables
two_owners = record one_owner { members = member ann ∷ member bob ∷ [] }

nothing-Owned : Owned tables nothing
nothing-Owned = record { distinct = tt; owned = λ p h. absurd (ground arith) }

two_owners-Reach : Reach tables nothing two_owners
unfolding create_project add_member is_project same_project same_member is_member ◌===◌
two_owners-Reach = next (next here (created project ann [] p1 refl)) (
    added project (some bob) owner
      (record { user_id = bob.id; email = []; display_name = []; role = owner }) refl)

Reach-Owned_example : Owned tables two_owners
Reach-Owned_example = Reach-Owned tables nothing two_owners two_owners-Reach nothing-Owned

different : ann.id ≢ bob.id
different h = ground arith

overlapping_demotions_example :
    let d' = commit_change tables project ann.id editor (member ann ∷ member bob ∷ []) in
    (check_change tables project ann.id editor (member ann ∷ member bob ∷ []) ≡ ok (member ann))
    × (check_change tables project bob.id editor (member ann ∷ member bob ∷ []) ≡ ok (member bob))
    × (count_owners tables project (commit_change tables project bob.id editor d') ≡ 0)
    × (check_change tables project bob.id editor d' ≡ err last_owner)
unfolding is_owner owns count_owners same_member is_member ◌===◌
overlapping_demotions_example =
    overlapping_demotions tables project ann.id bob.id editor (member ann ∷ member bob ∷ [])
      (member ann) (member bob) different refl (refl, (refl, tt)) refl refl refl refl refl
