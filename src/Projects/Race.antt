-- ===== src/Projects/Race.antt =====
-- Two role changes that overlap: `changeMemberRole` counts the owners and updates the row in
-- separate statements, outside a transaction.
use collab_ide.Base.{
  suc, ◌≡◌, refl, ◌∙◌, ◌≢◌, true, false, some, List, [], ◌∷◌, map, Str, ===_iff, find, find-holds,
  count, ok, err, arith,
}
use collab_ide.Database.{update_row}
use collab_ide.Database.Distinct.{Distinct, count-update_row}
use collab_ide.Auth.Authorize.{Role, Member, is_member, same_member}
use collab_ide.Auth.Authorize.Laws.{is_member_keys}
use collab_ide.Projects.{
  Tables, is_owner, owns, check_change, commit_change, count_owners, last_owner,
}
use collab_ide.Projects.Counts.{one_member, Distinct-set_role}

demote_one :
    (id user_id : Str) (role : Role) (ms : List Member) (m : Member)
    → is_owner role ≡ false
    → Distinct same_member ms
    → find (is_member id user_id) ms ≡ some m
    → is_owner m.role ≡ true
    → suc (
        count
          (owns id)
          (map (update_row (is_member id user_id) (λ n. record n { role = role })) ms))
      ≡ count (owns id) ms
unfolding owns
demote_one id user_id role ms m low d e high =
    let keys = is_member_keys m (find-holds (is_member id user_id) ms e) in
    let counts =
      count-update_row same_member (is_member id user_id) (one_member id user_id) (owns id)
        (λ n. record n { role = role }) ms m d e in
    ground (arith, counts, keys.0, ===_iff m.project_id id)

find-other :
    (id a b : Str) (role : Role) (ms : List Member)
    → a ≢ b
    → find (is_member id b) (map (update_row (is_member id a) (λ n. record n { role = role })) ms)
      ≡ find (is_member id b) ms
unfolding is_member
find-other id a b role [] ne = refl
find-other id a b role (m ∷ ms) ne =
    ground (arith, find-other id a b role ms ne, ===_iff m.user.id a, ===_iff m.user.id b)

demote_two :
    (id a b : Str) (role : Role) (ms : List Member) (m n : Member)
    → a ≢ b
    → is_owner role ≡ false
    → Distinct same_member ms
    → find (is_member id a) ms ≡ some m
    → is_owner m.role ≡ true
    → find (is_member id b) ms ≡ some n
    → is_owner n.role ≡ true
    → count (owns id) ms ≡ 2
    → let ms' = map (update_row (is_member id a) (λ x. record x { role = role })) ms in
      (count (owns id) ms' ≡ 1)
      × (count (owns id) (map (update_row (is_member id b) (λ x. record x { role = role })) ms')
          ≡ 0)
demote_two id a b role ms m n ne low d em hm en hn two =
    let ms' = map (update_row (is_member id a) (λ x. record x { role = role })) ms in
    let first = demote_one id a role ms m low d em hm in
    let there = find-other id a b role ms ne ∙ en in
    let second = demote_one id b role ms' n low (Distinct-set_role id a role ms d) there hn in
    (omega (arith, first), omega (arith, first, second))

-- A project has two owners, `a` and `b`, and each is demoted by a request of its own. If the second
-- request reads before the first one writes, both pass the last-owner test and no owner is left;
-- if it reads afterwards, it is refused with LAST_OWNER.
pub overlapping_demotions :
    (t : Tables) (id a b : Str) (role : Role) (d : t.members.Db) (m n : Member)
    → a ≢ b
    → is_owner role ≡ false
    → Distinct same_member (t.members.rows d)
    → find (is_member id a) (t.members.rows d) ≡ some m
    → is_owner m.role ≡ true
    → find (is_member id b) (t.members.rows d) ≡ some n
    → is_owner n.role ≡ true
    → count_owners t id d ≡ 2
    → let d' = commit_change t id a role d in
      (check_change t id a role d ≡ ok m)
      × (check_change t id b role d ≡ ok n)
      × (count_owners t id (commit_change t id b role d') ≡ 0)
      × (check_change t id b role d' ≡ err last_owner)
unfolding check_change commit_change count_owners
overlapping_demotions t id a b role d m n ne low distinct em hm en hn two =
    let rows = t.members.rows d in
    let wrote = t.members.rows-update_many in
    let demote = λ (x : Member). record x { role = role } in
    let (one, zero) = demote_two id a b role rows m n ne low distinct em hm en hn two in
    (
      rw em (ground arith),
      rw en (ground arith),
      rw (wrote (is_member id b) demote _, wrote (is_member id a) demote d) zero,
      rw (wrote (is_member id a) demote d, find-other id a b role rows ne, en)
          (ground (arith, one)),
    )
