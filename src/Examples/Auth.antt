-- ===== src/Examples/Auth.antt =====
-- A project with one editor.
use collab_ide.Base.{◌≡◌, ◌⊎◌, none, some, [], ◌∷◌, ok, err, ◌≤◌}
use collab_ide.Database.Memory.{memory}
use collab_ide.Auth.Authorize.{
  Member, editor, owner, same_member, not_found, forbidden, assert_project_access, role_rank,
}
use collab_ide.Auth.Authorize.Laws.{role_of, assert_project_access_cases}

abbrev ann : Member
ann = record {
  project_id = b'p' ∷ [];
  user = record { id = b'a' ∷ []; email = []; display_name = [] };
  role = editor;
}

assert_project_access_cases_example :
    let members = memory Member same_member in
    ((role_of members (b'p' ∷ []) (b'a' ∷ []) (ann ∷ []) ≡ none)
      × (assert_project_access members (b'a' ∷ []) (b'p' ∷ []) owner (ann ∷ []) ≡ err not_found))
    ⊎ ((m : Member) × (role_of members (b'p' ∷ []) (b'a' ∷ []) (ann ∷ []) ≡ some m.role)
        × (m.project_id ≡ b'p' ∷ [])
        × (m.user.id ≡ b'a' ∷ [])
        × (((role_rank owner ≤ role_rank m.role)
              × (assert_project_access members (b'a' ∷ []) (b'p' ∷ []) owner (ann ∷ []) ≡ ok m))
            ⊎ ((¬ (role_rank owner ≤ role_rank m.role))
                × (assert_project_access members (b'a' ∷ []) (b'p' ∷ []) owner (ann ∷ [])
                    ≡ err (forbidden owner)))))
assert_project_access_cases_example =
    assert_project_access_cases (memory Member same_member) (b'a' ∷ []) (b'p' ∷ []) owner (ann ∷ [])
