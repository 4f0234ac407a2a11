-- ===== src/Runner/Reaper/Sweeps.antt =====
-- What a sweep removes, whatever docker answers.
use collab_ide.Base.{
  ℕ, ◌≡◌, refl, ap, ◌∙◌, arith, Bool, false, not, ◌&&◌, ◌||◌, List, [], ◌∷◌, map, keep, any, Option,
  none, some, Str, ◌===◌, split, length, ◌==◌, Bool-cases, inl, inr,
}
use collab_ide.Runner.Reaper.{
  Answer, Command, list_runs, inspect, remove, Inspected, parse_inspect_line, present, is_stale,
  stale_ids, is_done, remove_stale, inspect_listed, listed_ids, reap_stale_containers,
}

abbrev pub removes : Str → Command → Bool
removes id list_runs = false
removes id (inspect ids) = false
removes id (remove ids) = any (λ i. i === id) ids

-- `docker rm` without a container
abbrev pub removes_none : Command → Bool
removes_none list_runs = false
removes_none (inspect ids) = false
removes_none (remove ids) = length ids == 0

module _ (parse_date : Str → Option ℕ) (docker : Command → Answer) (now max_age_ms : ℕ) where
  abbrev pub is_expired : Str → Option Inspected → Bool
  is_expired id none = false
  is_expired id (some entry) = is_stale now max_age_ms entry && (entry.id === id)

  abbrev pub expires : Str → Str → Bool
  expires id line = is_expired id (parse_inspect_line parse_date line)

  present-expired :
      (id : Str) (entries : List (Option Inspected))
      → any
          (λ i. i === id)
          (map (λ entry. entry.id) (keep (is_stale now max_age_ms) (present entries)))
        ≡ any (is_expired id) entries
  present-expired id [] = refl
  present-expired id (none ∷ entries) = present-expired id entries
  present-expired id (some entry ∷ entries) = elim (Bool-cases (is_stale now max_age_ms entry)) [
    | inl stale ↦ rw stale (ap (λ b. (entry.id === id) || b) (present-expired id entries))
    | inr young ↦ rw young (present-expired id entries)
  ]

  any-map :
      {A B : Type 0} (p : B → Bool) (f : A → B) (xs : List A)
      → any p (map f xs) ≡ any (λ x. p (f x)) xs
  any-map p f [] = refl
  any-map p f (x ∷ xs) = ap (λ b. p (f x) || b) (any-map p f xs)

  stale_ids-expired :
      (id stdout : Str)
      → any (λ i. i === id) (stale_ids parse_date docker now max_age_ms stdout)
        ≡ any (expires id) (split b'\n' stdout)
  stale_ids-expired id stdout =
      present-expired id (map (parse_inspect_line parse_date) (split b'\n' stdout))
      ∙ any-map (is_expired id) (parse_inspect_line parse_date) (split b'\n' stdout)

  remove_stale-removes :
      (id : Str) (listed ids : List Str)
      → (any
            (removes id)
            (remove_stale parse_date docker now max_age_ms
              (list_runs ∷ inspect listed ∷ [])
              ids).commands
          ≡ any (λ i. i === id) ids)
        × (any removes_none
              (remove_stale parse_date docker now max_age_ms
                (list_runs ∷ inspect listed ∷ [])
                ids).commands
            ≡ false)
  remove_stale-removes id listed [] = (refl, refl)
  remove_stale-removes id listed (i ∷ ids) = (ground arith, ground arith)

  inspect_listed-removes :
      (id : Str) (ids : List Str)
      → (any (removes id) (inspect_listed parse_date docker now max_age_ms ids).commands ≡ (
          not (length ids == 0)
          && is_done parse_date docker now max_age_ms (docker (inspect ids))
          && any (expires id) (split b'\n' (docker (inspect ids)).stdout)))
        × (any removes_none (inspect_listed parse_date docker now max_age_ms ids).commands ≡ false)
  inspect_listed-removes id [] = (refl, refl)
  inspect_listed-removes id (i ∷ ids) =
      let stdout = (docker (inspect (i ∷ ids))).stdout in
      let (one, two) =
        remove_stale-removes id (i ∷ ids) (stale_ids parse_date docker now max_age_ms stdout) in
      let full : (length (i ∷ ids) == 0) ≡ false = ground arith in
      elim (Bool-cases (is_done parse_date docker now max_age_ms (docker (inspect (i ∷ ids))))) [
        | inl done ↦ (simp (full, done) (one ∙ stale_ids-expired id stdout), simp done two)
        | inr failed ↦ (simp (full, failed) refl, simp failed refl)
      ]

  -- Whatever docker answers, a sweep removes a container exactly when the label is found on some container, docker can
  -- list and inspect them, and a line of the inspection names that container with a date that can be read and
  -- that is at least the maximal age ago; and it never runs `docker rm` without a container.
  pub reap-expired :
      (id : Str)
      → let listed = docker list_runs in
        let ids = listed_ids parse_date docker now max_age_ms listed.stdout in
        (any (removes id) (reap_stale_containers parse_date docker now max_age_ms).commands ≡ (
          is_done parse_date docker now max_age_ms listed
          && not (length ids == 0)
          && is_done parse_date docker now max_age_ms (docker (inspect ids))
          && any (expires id) (split b'\n' (docker (inspect ids)).stdout)))
        × (any removes_none (reap_stale_containers parse_date docker now max_age_ms).commands
            ≡ false)
  unfolding reap_stale_containers
  reap-expired id =
      let (one, two) =
        inspect_listed-removes id
          (listed_ids parse_date docker now max_age_ms (docker list_runs).stdout) in
      elim (Bool-cases (is_done parse_date docker now max_age_ms (docker list_runs))) [
        | inl done ↦ (simp done one, simp done two)
        | inr failed ↦ (simp failed refl, simp failed refl)
      ]
