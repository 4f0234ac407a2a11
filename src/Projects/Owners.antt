-- ===== src/Projects/Owners.antt =====
-- The calls of projects/service.ts as steps, and the owners of a project along them.
use collab_ide.Base.{
  ◌<◌, ◌≡◌, sym, ◌∙◌, inl, inr, true, false, Option, none, some, List, [], ◌∷◌, ◌++◌, map, Str, any,
  any-append, count, count-append, ok, Option-cases, arith,
}
use collab_ide.Database.{find_first, update_row}
use collab_ide.Database.Distinct.{
  Distinct, Distinct-append, Distinct-keep, create_inv, any-map-same,
}
use collab_ide.Auth.Authorize.{Role, owner, User, Member, is_member, same_member}
use collab_ide.Effects.{Effect}
use collab_ide.Projects.{
  Project, is_project, same_project, MemberSummary, Tables, State, owns, create_project,
  rename_project, delete_project, add_member, check_change, commit_change, change_member_role,
  remove_member, in_project,
}
use collab_ide.Projects.Counts.{
  same_member_comm, left_owned, Distinct-set_role, change_owners, remove_owners,
}

module _ (t : Tables) where
  pub record Owned (s : State t) : Type 0 where
    pub distinct : Distinct same_member (t.members.rows s.members)
    pub owned :
        (p : Str)
        → any (is_project p) (t.projects.rows s.projects) ≡ true
        → 0 < count (owns p) (t.members.rows s.members)

  abbrev first_owner : Str → User → Member
  first_owner id user = record { project_id = id; user = user; role = owner }

  create_project_inv :
      (id : Str) (user : User) (name : Str) (s : State t) {s' : State t} {p : Project}
      → create_project t id user name s ≡ ok (p, s')
      → (any (is_project id) (t.projects.rows s.projects) ≡ false)
        × (t.projects.rows s'.projects
            ≡ t.projects.rows s.projects
              ++ record { id = id; name = name; owner_id = user.id } ∷ [])
        × (any (same_member (first_owner id user)) (t.members.rows s.members) ≡ false)
        × (t.members.rows s'.members ≡ t.members.rows s.members ++ first_owner id user ∷ [])
  unfolding create_project same_project
  create_project_inv id user name s {s'} e =
      elim (Option-cases
        (t.projects.create (record { id = id; name = name; owner_id = user.id }) s.projects)) [
          | inl bad ↦ cc (rw (bad, create_project) at e)
          | inr (ps, made) ↦
              elim (Option-cases (t.members.create (first_owner id user) s.members)) [
                | inl bad ↦ absurd (ground arith)
                | inr (ms, joined) ↦
                    let (new, prows) =
                      create_inv t.projects (record { id = id; name = name; owner_id = user.id })
                        s.projects made in
                    let (single, mrows) =
                      create_inv t.members (first_owner id user) s.members joined in
                    let same_p : ps ≡ s'.projects = ground arith in
                    let same_m : ms ≡ s'.members = ground arith in
                    (new, rw (← same_p) prows, single, rw (← same_m) mrows)
              ]
        ]

  create_project-Owned :
      (id : Str) (user : User) (name : Str) (s s' : State t) {p : Project}
      → create_project t id user name s ≡ ok (p, s')
      → Owned s
      → Owned s'
  unfolding owns is_project
  create_project-Owned id user name s s' e v =
      let (new, prows, single, mrows) = create_project_inv id user name s e in
      record {
        distinct = rw mrows (
            Distinct-append same_member same_member_comm (t.members.rows s.members) _ v.distinct
              single);
        owned = λ p listed. rw mrows (
            ground (
              arith,
              count-append (owns p) (t.members.rows s.members) (first_owner id user ∷ []),
              rw prows at listed,
              any-append (is_project p) (t.projects.rows s.projects)
                  (record { id = id; name = name; owner_id = user.id } ∷ []),
              v.owned p,
            ));
      }

  rename_project-Owned :
      (id name : Str) (s s' : State t) → rename_project t id name s ≡ ok s' → Owned s → Owned s'
  unfolding rename_project is_project
  rename_project-Owned id name s s' e v =
      let same_m : s.members ≡ s'.members = ground arith in
      let same_p : t.projects.update_many (is_project id) (λ p. record p { name = name }) s.projects
          ≡ s'.projects =
        ground arith in
      let prows : t.projects.rows s'.projects
          ≡ map (update_row (is_project id) (λ p. record p { name = name }))
              (t.projects.rows s.projects) =
        rw (← same_p) (t.projects.rows-update_many _ _ s.projects) in
      record {
        distinct = rw (← same_m) v.distinct;
        owned = λ p listed. rw (← same_m) (
            v.owned p (
              sym (
                any-map-same (is_project p)
                  (update_row (is_project id) (λ q. record q { name = name })) (λ r. ground arith)
                  (t.projects.rows s.projects))
              ∙ (rw prows at listed)));
      }

  abbrev joined : Str → User → Role → Member
  joined id user role = record { project_id = id; user = user; role = role }

  add_member-Owned :
      (id : Str) (found : Option User) (role : Role) (s s' : State t) {m : MemberSummary}
      → add_member t id found role s ≡ ok (m, s')
      → Owned s
      → Owned s'
  unfolding add_member
  add_member-Owned id none role s s' e v = cc
  add_member-Owned id (some user) role s s' e v =
      elim (Option-cases (t.members.create (joined id user role) s.members)) [
        | inl bad ↦ absurd (ground arith)
        | inr (ms, made) ↦
            let (single, mrows) = create_inv t.members (joined id user role) s.members made in
            let same_m : ms ≡ s'.members = ground arith in
            let same_p : s.projects ≡ s'.projects = ground arith in
            record {
              distinct =
                  rw (← same_m, mrows)
                    (Distinct-append same_member same_member_comm (t.members.rows s.members)
                      (joined id user role) v.distinct single);
              owned = λ p listed.
                  rw (← same_m, mrows)
                    (ground (
                      arith,
                      count-append (owns p) (t.members.rows s.members) (joined id user role ∷ []),
                      v.owned p (rw (← same_p) at listed),
                    ));
            }
      ]

  delete_project-Owned :
      (id : Str) (s s' : State t) {fx : List Effect}
      → delete_project t id s ≡ ok (s', fx)
      → Owned s
      → Owned s'
  unfolding delete_project
  delete_project-Owned id s s' e v =
      let same_m : t.members.delete_many (in_project id) s.members ≡ s'.members = ground arith in
      let same_p : t.projects.delete_many (is_project id) s.projects ≡ s'.projects = ground arith in
      record {
        distinct =
            rw (← same_m, t.members.rows-delete_many (in_project id) s.members)
              (Distinct-keep same_member _ (t.members.rows s.members) v.distinct);
        owned = λ p listed.
            rw (← same_m, t.members.rows-delete_many (in_project id) s.members)
              (left_owned id p (t.projects.rows s.projects) (t.members.rows s.members)
                (rw (← same_p, t.projects.rows-delete_many (is_project id) s.projects) at listed)
                (v.owned p));
      }

  change_member_role-Owned :
      (id user_id : Str) (role : Role) (s s' : State t) {m : MemberSummary} {fx : List Effect}
      → change_member_role t id user_id role s ≡ ok (m, s', fx)
      → Owned s
      → Owned s'
  unfolding change_member_role check_change commit_change
  change_member_role-Owned id user_id role s s' e v =
      elim (Option-cases (find_first t.members (is_member id user_id) s.members)) [
        | inl bad ↦ absurd (ground arith)
        | inr (m, found) ↦
            let same_p : s.projects ≡ s'.projects = ground arith in
            let same_m : t.members.update_many (is_member id user_id)
                  (λ n. record n { role = role }) s.members
                ≡ s'.members =
              ground arith in
            let mrows =
              t.members.rows-update_many (is_member id user_id) (λ n. record n { role = role })
                s.members in
            record {
              distinct = rw (← same_m, mrows) (Distinct-set_role id user_id role _ v.distinct);
              owned = λ p listed.
                  rw (← same_m, mrows)
                    (change_owners id user_id p role (t.members.rows s.members) m v.distinct found
                      (ground arith) (v.owned p (rw (← same_p) at listed)));
            }
      ]

  remove_member-Owned :
      (id user_id acting : Str) (s s' : State t) {fx : List Effect}
      → remove_member t id user_id acting s ≡ ok (s', fx)
      → Owned s
      → Owned s'
  unfolding remove_member
  remove_member-Owned id user_id acting s s' e v =
      elim (Option-cases (find_first t.members (is_member id user_id) s.members)) [
        | inl bad ↦ absurd (ground arith)
        | inr (m, found) ↦
            let same_p : s.projects ≡ s'.projects = ground arith in
            let same_m : t.members.delete_many (is_member id user_id) s.members ≡ s'.members =
              ground arith in
            let mrows = t.members.rows-delete_many (is_member id user_id) s.members in
            record {
              distinct =
                  rw (← same_m, mrows)
                    (Distinct-keep same_member _ (t.members.rows s.members) v.distinct);
              owned = λ p listed.
                  rw (← same_m, mrows)
                    (remove_owners id user_id p (t.members.rows s.members) m v.distinct found
                      (ground arith) (v.owned p (rw (← same_p) at listed)));
            }
      ]

  -- The calls of the service, each with the arguments of one request, that succeed.
  pub data Step : State t → State t → Type 0 where
    created :
        {s s' : State t} (id : Str) (user : User) (name : Str) (p : Project)
        → create_project t id user name s ≡ ok (p, s')
        → Step s s'
    renamed : {s s' : State t} (id name : Str) → rename_project t id name s ≡ ok s' → Step s s'
    deleted :
        {s s' : State t} (id : Str) (fx : List Effect)
        → delete_project t id s ≡ ok (s', fx)
        → Step s s'
    added :
        {s s' : State t} (id : Str) (found : Option User) (role : Role) (m : MemberSummary)
        → add_member t id found role s ≡ ok (m, s')
        → Step s s'
    changed :
        {s s' : State t} (id user_id : Str) (role : Role) (m : MemberSummary) (fx : List Effect)
        → change_member_role t id user_id role s ≡ ok (m, s', fx)
        → Step s s'
    removed :
        {s s' : State t} (id user_id acting : Str) (fx : List Effect)
        → remove_member t id user_id acting s ≡ ok (s', fx)
        → Step s s'

  pub data Reach (s : State t) : State t → Type 0 where
    here : Reach s s
    next : {u w : State t} → Reach s u → Step u w → Reach s w

  Step-Owned : {s s' : State t} → Step s s' → Owned s → Owned s'
  Step-Owned {s} {s'} (created id user name p e) v = create_project-Owned id user name s s' e v
  Step-Owned {s} {s'} (renamed id name e) v = rename_project-Owned id name s s' e v
  Step-Owned {s} {s'} (deleted id fx e) v = delete_project-Owned id s s' e v
  Step-Owned {s} {s'} (added id found role m e) v = add_member-Owned id found role s s' e v
  Step-Owned {s} {s'} (changed id user_id role m fx e) v =
      change_member_role-Owned id user_id role s s' e v
  Step-Owned {s} {s'} (removed id user_id acting fx e) v =
      remove_member-Owned id user_id acting s s' e v

  -- From a state in which the memberships are unique and every project that exists has at least one owner, any sequence of successful calls, one after another, leads to such a state.
  pub Reach-Owned : (s s' : State t) → Reach s s' → Owned s → Owned s'
  Reach-Owned s s' here v = v
  Reach-Owned s s' (next {u} r st) v = Step-Owned st (Reach-Owned s u r v)
