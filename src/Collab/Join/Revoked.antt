-- ===== src/Collab/Join/Revoked.antt =====
-- collab/syncHandler.ts: what a revocation reaches.
use collab_ide.Base.{
  ℕ, ◌≡◌, refl, Bool, true, false, ◌&&◌, not, Option, List, [], ◌∷◌, ◌++◌, map, any, keep, Str,
  arith,
}
use collab_ide.Collab.Join.{Socket, Hall, of_user, came, all_rooms, disconnect_project_user, shut}

-- The sockets that a revocation must not leave: those of the user in the project that are open.
abbrev pub reachable : Str → Str → Socket → Bool
reachable project_id user_id s = of_user project_id user_id s && s.open_

shut-any :
    (p : Socket → Bool) (q : Socket → Bool) (ss : List Socket)
    → ((s : Socket) → q (shut p s) ≡ false)
    → any q (map (shut p) ss) ≡ false
shut-any p q [] h = refl
shut-any p q (s ∷ ss) h = ground (arith, shut-any p q ss h, h s)

shut-others :
    (p : Socket → Bool) (ss : List Socket)
    → ((s : Socket) → p (shut p s) ≡ p s)
    → keep (λ s. not (p s)) (map (shut p) ss) ≡ keep (λ s. not (p s)) ss
shut-others p [] h = refl
shut-others p (s ∷ ss) h = ground (arith, shut-others p ss h, h s)

-- After a revocation no socket of the user in the project that has joined a room is open, those that waited for a room
-- when it began included unless they wait again, and the other sockets of the rooms are as they were.
pub disconnect_project_user-conns :
    (project_id user_id : Str) (settled : ℕ → Option Bool) (h : Hall)
    → let h' = disconnect_project_user project_id user_id settled h in
      (any (reachable project_id user_id) h'.conns ≡ false)
      × (keep (λ s. not (of_user project_id user_id s)) h'.conns
          ≡ keep
              (λ s. not (of_user project_id user_id s))
              (h.conns ++ keep (came settled true) h.waiting))
unfolding disconnect_project_user all_rooms
disconnect_project_user-conns project_id user_id settled h =
    let conns = h.conns ++ keep (came settled true) h.waiting in
    (
      shut-any (of_user project_id user_id) (reachable project_id user_id) conns
          (λ s. ground arith),
      shut-others (of_user project_id user_id) conns (λ s. ground arith),
    )
