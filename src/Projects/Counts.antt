-- ===== src/Projects/Counts.antt =====
-- The owners that are left when rows of the membership table change.
use collab_ide.Base.{
  ◌<◌, ◌≡◌, inl, inr, true, false, ◌&&◌, not, some, List, map, Str, ◌===◌, ===_iff, ===_comm, any,
  keep, find, find-holds, count, ◌==◌, Bool-cases, arith,
}
use collab_ide.Database.{update_row}
use collab_ide.Database.Distinct.{
  Distinct, Distinct-map, count-update_row, count-delete, count-keep_of, any-keep-not, any-keep-le,
}
use collab_ide.Auth.Authorize.{Role, Member, is_member, same_member}
use collab_ide.Auth.Authorize.Laws.{is_member_keys}
use collab_ide.Projects.{Project, is_project, is_owner, owns, in_project}

pub same_member_comm : (m n : Member) → same_member m n ≡ same_member n m
unfolding same_member
same_member_comm m n =
    ground (arith, ===_comm n.project_id m.project_id, ===_comm n.user.id m.user.id)

pub one_member :
    (p u : Str) (m n : Member)
    → is_member p u m ≡ true
    → is_member p u n ≡ true
    → same_member m n ≡ true
unfolding same_member
one_member p u m n hm hn = let (mp, mu) = is_member_keys m hm in rw (mp, mu) hn

pub left_owned :
    (id p : Str) (ps : List Project) (ms : List Member)
    → any (is_project p) (keep (λ q. not (is_project id q)) ps) ≡ true
    → (any (is_project p) ps ≡ true → 0 < count (owns p) ms)
    → 0 < count (owns p) (keep (λ m. not (in_project id m)) ms)
unfolding owns
left_owned id p ps ms listed owned = elim (Bool-cases (id === p)) [
  | inl e ↦
      let same = (===_iff id p).0 e in cc (any-keep-not (is_project id) ps, rw (← same) at listed)
  | inr e ↦
      rw
        (count-keep_of (owns p) (λ m. not (in_project id m))
          (λ m h. ground (arith, ===_iff m.project_id p, ===_iff m.project_id id, ===_iff id p)) ms)
        (owned (any-keep-le (is_project p) (λ q. not (is_project id q)) ps listed))
]

pub Distinct-set_role :
    (id user_id : Str) (role : Role) (ms : List Member)
    → Distinct same_member ms
    → Distinct same_member
        (map (update_row (is_member id user_id) (λ m. record m { role = role })) ms)
unfolding same_member
Distinct-set_role id user_id role ms h = Distinct-map same_member _ (λ m n. ground arith) ms h

-- The owners after a change of role that the last-owner test let pass.
pub change_owners :
    (id user_id p : Str) (role : Role) (ms : List Member) (m : Member)
    → Distinct same_member ms
    → find (is_member id user_id) ms ≡ some m
    → (is_owner m.role && not (is_owner role) && (count (owns id) ms == 1)) ≡ false
    → 0 < count (owns p) ms
    → 0
      < count (owns p) (map (update_row (is_member id user_id) (λ n. record n { role = role })) ms)
unfolding owns
change_owners id user_id p role ms m d e test h =
    let keys = is_member_keys m (find-holds (is_member id user_id) ms e) in
    let counts =
      count-update_row same_member (is_member id user_id) (one_member id user_id) (owns p)
        (λ n. record n { role = role }) ms m d e in
    elim (Bool-cases (id === p)) [
      | inl same ↦
          let here = (===_iff id p).0 same in
          let guarded = rw here at test in
          ground (arith, counts, guarded, keys.0, here, ===_iff m.project_id p)
      | inr other ↦ ground (arith, counts, keys.0, ===_iff id p, ===_iff m.project_id p)
    ]

-- The owners after a removal that the last-owner test let pass.
pub remove_owners :
    (id user_id p : Str) (ms : List Member) (m : Member)
    → Distinct same_member ms
    → find (is_member id user_id) ms ≡ some m
    → (is_owner m.role && (count (owns id) ms == 1)) ≡ false
    → 0 < count (owns p) ms
    → 0 < count (owns p) (keep (λ n. not (is_member id user_id n)) ms)
unfolding owns
remove_owners id user_id p ms m d e test h =
    let keys = is_member_keys m (find-holds (is_member id user_id) ms e) in
    let counts =
      count-delete same_member (is_member id user_id) (one_member id user_id) (owns p) ms m d e in
    elim (Bool-cases (id === p)) [
      | inl same ↦
          let here = (===_iff id p).0 same in
          let guarded = rw here at test in
          ground (arith, counts, guarded, keys.0, here, ===_iff m.project_id p)
      | inr other ↦ ground (arith, counts, keys.0, ===_iff id p, ===_iff m.project_id p)
    ]
