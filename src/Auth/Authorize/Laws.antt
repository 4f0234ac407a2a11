-- ===== src/Auth/Authorize/Laws.antt =====
-- auth/authorize.ts: when access is granted, and which refusal is given.
use collab_ide.Base.{
  ◌≤◌, ◌≡◌, ◌⊎◌, inl, inr, true, Option, none, some, Str, ===_iff, find-holds, ok, err,
  Option-cases, arith,
}
use collab_ide.Database.{Table, find_first}
use collab_ide.Auth.Authorize.{
  Role, role_rank, Member, is_member, same_member, has_role, not_found, forbidden,
  assert_project_access,
}

-- The role that a user has in a project, if any.
abbrev pub role_of : (members : Table Member same_member) → Str → Str → members.Db → Option Role
role_of members project_id user_id d = elim (find_first members (is_member project_id user_id) d) [
  | none ↦ none
  | some m ↦ some m.role
]

pub is_member_keys :
    {p u : Str} (m : Member) → is_member p u m ≡ true → (m.project_id ≡ p) × (m.user.id ≡ u)
unfolding is_member
is_member_keys {p} {u} m h = ground (arith, ===_iff m.project_id p, ===_iff m.user.id u)

-- Access is granted exactly to the members whose role ranks at least as high as the minimum, and
-- the membership that is returned is that of the user in the project. A user who is no member gets
-- the answer for a project that does not exist, and one whose role is too low the answer 403.
pub assert_project_access_cases :
    (members : Table Member same_member) (user_id project_id : Str) (min_role : Role)
    (d : members.Db)
    → ((role_of members project_id user_id d ≡ none)
        × (assert_project_access members user_id project_id min_role d ≡ err not_found))
      ⊎ ((m : Member) × (role_of members project_id user_id d ≡ some m.role)
          × (m.project_id ≡ project_id)
          × (m.user.id ≡ user_id)
          × (((role_rank min_role ≤ role_rank m.role)
                × (assert_project_access members user_id project_id min_role d ≡ ok m))
              ⊎ ((¬ (role_rank min_role ≤ role_rank m.role))
                  × (assert_project_access members user_id project_id min_role d
                      ≡ err (forbidden min_role)))))
unfolding assert_project_access has_role
assert_project_access_cases members user_id project_id min_role d =
    elim (Option-cases (find_first members (is_member project_id user_id) d)) [
      | inl e ↦ inl (rw (e, role_of), rw e)
      | inr (m, e) ↦
          let keys = is_member_keys m (find-holds _ (members.rows d) e) in
          inr (m, rw (e, role_of), keys.0, keys.1, rw e (ground arith))
    ]
