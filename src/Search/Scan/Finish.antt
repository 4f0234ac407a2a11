-- ===== src/Search/Scan/Finish.antt =====
-- How a content search ends: it takes a bounded number of steps, and what it shows at the end.
use collab_ide.Base.{
  ℕ, suc, ◌+◌, ◌-◌, ◌*◌, ◌≤◌, ◌<◌, ◌≡◌, ◌⊎◌, inl, inr, refl, sym, subst, arith, true, false, List,
  [], ◌∷◌, some, Str, length, if◌then◌else◌, length-append, length-take-le,
}
use collab_ide.Search.Tree.{FlatNode}
use collab_ide.Search.Scan.{
  Scan, Reading, CacheEntry, targets, scan_start, at_index, max_files_scanned, all_settled, done,
  shown_of,
}
use collab_ide.Search.Scan.Steps.{
  Answered, Step, turn, answer, cleanup, Runs, here, next, worker_answered-Answered,
  worker_turn_cases,
}
use collab_ide.Search.Scan.Bounds.{total, at_index-some, Runs-Counted, scan_start-Counted}

module _ (to_lower_case : Str → Str) (trimmed : Str) (candidates : List FlatNode) where
  abbrev pub total_of : ℕ
  total_of = total to_lower_case trimmed candidates

  -- What is left to do: each step makes it smaller.
  abbrev pub remaining : Scan → ℕ
  remaining s =
      3 * (total_of - s.cursor) + 2 * length s.reading + s.ready + (if s.cancelled then 0 else 1)

  Answered-remaining :
      (i : ℕ) (r : Reading) (s t : Scan)
      → at_index s.reading i ≡ some r
      → Answered i s t
      → remaining t < remaining s
  Answered-remaining i r s t at (reading, cursor, cancelled, cases) =
      let (lt, size) = at_index-some s.reading i r at in
      let less : suc (length t.reading) ≡ length s.reading = rw reading size in
      elim cases [
        | inl (stop, ready, scanned, held, capped) ↦ rw (cursor, cancelled, ready) (omega arith)
        | inr (live, ready, scanned, grown) ↦ rw (cursor, cancelled, ready) (omega arith)
      ]

  Step-remaining :
      {s t : Scan} → Step to_lower_case trimmed candidates s t → remaining t < remaining s
  Step-remaining {s} (turn ready) = elim (worker_turn_cases to_lower_case trimmed candidates s) [
    | inl (stop, e) ↦ subst (λ t. remaining t < remaining s) (sym e) (omega arith)
    | inr (inl (go, none_left, e)) ↦ subst (λ t. remaining t < remaining s) (sym e) (omega arith)
    | inr (inr (go, n, o, found, e)) ↦
        let (lt, size) =
          at_index-some (targets to_lower_case trimmed candidates) s.cursor n found in
        let longer = length-append s.reading ((n, o) ∷ []) in
        subst (λ t. remaining t < remaining s) (sym e) (omega arith)
  ]
  Step-remaining {s} {t} (answer i r a now at) =
      Answered-remaining i r s t at
        (worker_answered-Answered to_lower_case trimmed candidates i r a now s)
  Step-remaining {s} (cleanup live) = rw live (omega arith)

  Runs-remaining :
      {s : Scan} {n : ℕ} {t : Scan}
      → Runs to_lower_case trimmed candidates s n t
      → n + remaining t ≤ remaining s
  Runs-remaining here = omega arith
  Runs-remaining (next r step) = omega (arith, Runs-remaining r, Step-remaining step)

  -- A search takes at most 907 steps: turns of the workers, answers and the clean-up.
  pub Runs-bounded :
      (cache : List CacheEntry) (n : ℕ) (s : Scan)
      → Runs to_lower_case trimmed candidates
          (scan_start to_lower_case trimmed candidates cache)
          n
          s
      → n ≤ 907
  Runs-bounded cache n s r =
      let few = length-take-le max_files_scanned candidates in omega (arith, Runs-remaining r)

  -- When all workers of a search that was not cancelled have returned, the search is shown as done,
  -- with its first 120 hits; it was capped, or the answer for every target has been read.
  pub Runs-all_settled :
      (cache : List CacheEntry) (n now : ℕ) (s : Scan)
      → Runs to_lower_case trimmed candidates
          (scan_start to_lower_case trimmed candidates cache)
          n
          s
      → s.ready ≡ 0
      → length s.reading ≡ 0
      → s.cancelled ≡ false
      → ((all_settled to_lower_case trimmed candidates now s).shown
          ≡ shown_of to_lower_case trimmed candidates done s)
        × ((s.capped ≡ true) ⊎ (s.scanned ≡ total_of))
  unfolding all_settled
  Runs-all_settled cache n now s r ready reading live =
      let (workers, read, left, hits) =
        Runs-Counted to_lower_case trimmed candidates r
          (scan_start-Counted to_lower_case trimmed candidates cache) in
      let counted = read live in
      (
        simp live refl,
        elim (left (omega arith)) [ inl stop ↦ inl (ground arith) | inr used ↦ inr (omega arith) ],
      )
