-- ===== src/Examples/Reaper.antt =====
-- A sweep over two containers, of which one is old enough.
use collab_ide.Base.{
  ℕ, ◌≡◌, refl, false, not, ◌&&◌, [], ◌∷◌, ◌++◌, Option, none, some, Str, text, length, any, ◌==◌,
  split, trim, trim_start, is_space,
}
use collab_ide.Runner.Reaper.{
  Answer, Command, list_runs, inspect, remove, is_done, listed_ids, argv, parse_inspect_line,
  reap_stale_containers,
}
use collab_ide.Runner.Reaper.Sweeps.{removes, removes_none, expires, reap-expired}

-- A date is one character.
abbrev date_of : Str → Option ℕ
date_of [] = none
date_of (c ∷ s) = some c

abbrev answers : Command → Answer
answers list_runs = record { code = some 0; stdout = text "aa" ++ b'\n' ∷ text "bb" ++ b'\n' ∷ [] }
answers (inspect ids) = record {
  code = some 0;
  stdout = text "aa A" ++ b'\n' ∷ text "bb z" ++ b'\n' ∷ [];
}
answers (remove ids) = record { code = some 0; stdout = [] }

one_removed :
    (reap_stale_containers date_of answers 100 20).commands
    ≡ list_runs ∷ inspect (text "aa" ∷ text "bb" ∷ []) ∷ remove (text "aa" ∷ []) ∷ []
unfolding reap_stale_containers parse_inspect_line split trim trim_start is_space text
one_removed = refl

removal : argv (remove (text "aa" ∷ [])) ≡ text "rm" ∷ text "-fv" ∷ text "aa" ∷ []
removal = refl

reap-expired_example :
    let ids = listed_ids date_of answers 100 20 ((answers list_runs).stdout) in
    (any (removes (text "aa")) (reap_stale_containers date_of answers 100 20).commands ≡ (
      is_done date_of answers 100 20 (answers list_runs)
      && not (length ids == 0)
      && is_done date_of answers 100 20 (answers (inspect ids))
      && any
          (expires date_of answers 100 20 (text "aa"))
          (split b'\n' (answers (inspect ids)).stdout)))
    × (any removes_none (reap_stale_containers date_of answers 100 20).commands ≡ false)
reap-expired_example = reap-expired date_of answers 100 20 (text "aa")
