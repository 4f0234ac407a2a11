-- ===== src/Search/Scan/Bounds.antt =====
-- The counters of a content search: the workers, the files read and the hits held, and how long it
-- can run.
use collab_ide.Base.{
  ℕ, zero, suc, ◌+◌, ◌*◌, ◌≤◌, ◌<◌, ◌≡◌, ◌⊎◌, inl, inr, refl, sym, subst, arith, min, true, false,
  List, [], ◌∷◌, none, some, Str, length, ◌||◌, length-append,
}
use collab_ide.Search.Tree.{FlatNode}
use collab_ide.Search.Scan.{
  Scan, Reading, CacheEntry, targets, scan_start, worker_turn, at_index, without_index,
  max_content_matches, max_matches_per_file, concurrency,
}
use collab_ide.Search.Scan.Steps.{
  Grown, Answered, Step, turn, answer, cleanup, Runs, here, next, worker_answered-Answered,
  worker_turn_cases,
}

module _ {A : Type 0} where
  pub at_index-some :
      (xs : List A) (i : ℕ) (x : A)
      → at_index xs i ≡ some x
      → (i < length xs) × (suc (length (without_index xs i)) ≡ length xs)
  at_index-some [] i x e = cc
  at_index-some (y ∷ xs) zero x e = (omega arith, refl)
  at_index-some (y ∷ xs) (suc i) x e =
      let (lt, size) = at_index-some xs i x e in (omega arith, omega arith)

  pub at_index-none : (xs : List A) (i : ℕ) → at_index xs i ≡ none → length xs ≤ i
  at_index-none [] i e = omega arith
  at_index-none (y ∷ xs) zero e = cc
  at_index-none (y ∷ xs) (suc i) e = omega (arith, at_index-none xs i e)

-- The most hits that a search holds: the cap is reached by one answer and exceeded by the five reads
-- that are on the way then.
abbrev pub most_hits : ℕ
most_hits = 149

module _ (to_lower_case : Str → Str) (trimmed : Str) (candidates : List FlatNode) where
  abbrev pub total : ℕ
  total = length (targets to_lower_case trimmed candidates)

  abbrev pub HitsBounded : Scan → Type 0
  HitsBounded s =
      ((s.capped ≡ false) × (length s.hits < max_content_matches))
      ⊎ ((s.capped ≡ true)
          × (max_content_matches ≤ length s.hits)
          × (length s.hits + max_matches_per_file * length s.reading ≤ most_hits))

  -- A worker that has returned found the search cancelled or capped or the targets used up.
  abbrev pub Counted : Scan → Type 0
  Counted s =
      (s.ready + length s.reading ≤ concurrency)
      × (s.cancelled ≡ false → s.scanned + length s.reading ≡ min s.cursor total)
      × (s.ready + length s.reading < concurrency
          → ((s.cancelled || s.capped) ≡ true) ⊎ (total ≤ s.cursor))
      × HitsBounded s

  worker_turn-Counted :
      (s : Scan)
      → 0 < s.ready
      → Counted s
      → Counted (worker_turn to_lower_case trimmed candidates s)
  worker_turn-Counted s ready (workers, read, left, hits) =
      elim (worker_turn_cases to_lower_case trimmed candidates s) [
        | inl (stop, e) ↦ subst Counted (sym e) (omega arith, read, λ h. inl stop, hits)
        | inr (inl (go, none_left, e)) ↦
            let used =
              at_index-none (targets to_lower_case trimmed candidates) s.cursor none_left in
            subst Counted (sym e) (
              omega arith,
              λ live. (let r = read live in omega arith),
              λ h. inr (omega arith),
              hits,
            )
        | inr (inr (go, n, o, found, e)) ↦
            let (lt, size) =
              at_index-some (targets to_lower_case trimmed candidates) s.cursor n found in
            let longer = length-append s.reading ((n, o) ∷ []) in
            let uncapped : s.capped ≡ false = ground arith in
            subst Counted (sym e) (
              omega arith,
              λ live. (let r = read live in omega arith),
              λ h. still_left s left (omega arith),
              inl (uncapped, ground arith),
            )
      ]
    where
      still_left :
          (s : Scan)
          → (s.ready + length s.reading < concurrency
              → ((s.cancelled || s.capped) ≡ true) ⊎ (total ≤ s.cursor))
          → s.ready + length s.reading < concurrency
          → ((s.cancelled || s.capped) ≡ true) ⊎ (total ≤ suc s.cursor)
      still_left s left h = elim (left h) [ inl stop ↦ inl stop | inr used ↦ inr (omega arith) ]

  -- The hits after an answer, with one read less on the way.
  Grown-HitsBounded :
      (s t : Scan)
      → suc (length t.reading) ≡ length s.reading
      → length s.reading ≤ concurrency
      → HitsBounded s
      → Grown s t
      → HitsBounded t
  Grown-HitsBounded s t size few hits grown = ground arith

  Answered-Counted :
      (i : ℕ) (r : Reading) (s t : Scan)
      → at_index s.reading i ≡ some r
      → Answered i s t
      → Counted s
      → Counted t
  Answered-Counted i r s t at (reading, cursor, cancelled, cases) (workers, read, left, hits) =
      let (lt, size) = at_index-some s.reading i r at in
      let less : suc (length t.reading) ≡ length s.reading = rw reading size in
      elim cases [
        | inl (stop, ready, scanned, held, capped) ↦ (
          omega arith,
          λ live. cc,
          λ h. inl (ground arith),
          Grown-HitsBounded s t less (omega arith) hits (inl (held, capped)),
        )
        | inr (live, ready, scanned, grown) ↦ (
          omega arith,
          λ l. (let r = read live in rw cursor (omega arith)),
          λ h. elim (left (omega arith)) [
            | inl stop ↦ inl (ground arith)
            | inr used ↦ inr (rw cursor used)
          ],
          Grown-HitsBounded s t less (omega arith) hits grown,
        )
      ]

  pub Step-Counted :
      {s t : Scan} → Step to_lower_case trimmed candidates s t → Counted s → Counted t
  Step-Counted {s} (turn ready) v = worker_turn-Counted s ready v
  Step-Counted {s} {t} (answer i r a now at) v =
      Answered-Counted i r s t at
        (worker_answered-Answered to_lower_case trimmed candidates i r a now s) v
  Step-Counted {s} (cleanup live) (workers, read, left, hits) =
      (workers, λ h. cc, λ h. inl refl, hits)

  pub Runs-Counted :
      {s : Scan} {n : ℕ} {t : Scan}
      → Runs to_lower_case trimmed candidates s n t
      → Counted s
      → Counted t
  Runs-Counted here v = v
  Runs-Counted (next r step) v = Step-Counted step (Runs-Counted r v)

  pub scan_start-Counted :
      (cache : List CacheEntry) → Counted (scan_start to_lower_case trimmed candidates cache)
  scan_start-Counted cache =
      (omega arith, λ live. omega arith, λ h. absurd (omega arith), inl (refl, omega arith))

  -- At every moment of a search that was not cancelled, the files read and the reads on the way are
  -- the targets that the cursor has passed, at most six workers are at work, and at most 149 hits are
  -- held: fewer than 120 until the search is capped.
  pub Runs-Counted_start :
      (cache : List CacheEntry) (n : ℕ) (s : Scan)
      → Runs to_lower_case trimmed candidates
          (scan_start to_lower_case trimmed candidates cache)
          n
          s
      → (s.ready + length s.reading ≤ concurrency)
        × (s.cancelled ≡ false → s.scanned + length s.reading ≡ min s.cursor total)
        × (length s.hits ≤ most_hits)
        × (s.capped ≡ false → length s.hits < max_content_matches)
  Runs-Counted_start cache n s r =
      let (workers, read, left, hits) = Runs-Counted r (scan_start-Counted cache) in
      (workers, read, ground arith, ground arith)
