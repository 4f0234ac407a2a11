-- ===== src/Search/Scan/Steps.antt =====
-- The steps of a content search, and what each one does to the counters.
use collab_ide.Base.{
  ℕ, suc, ◌+◌, ◌-◌, ◌≤◌, ◌<◌, ◌≡◌, ◌∙◌, ◌⊎◌, inl, inr, refl, ap, sym, subst, arith, Bool, true,
  false, List, [], ◌∷◌, ◌++◌, map, Option, none, some, Str, length, if◌then◌else◌, leb, ltb, ◌||◌,
  ◌&&◌, not, ◌==◌, Bool-cases, Option-cases, length-append,
}
use collab_ide.Search.Contents.{match_content, looks_binary}
use collab_ide.Search.Contents.Hits.{match_content_limit}
use collab_ide.Search.Tree.{FlatNode}
use collab_ide.Search.Scan.{
  Scan, Reading, Answer, received, api_error, other_error, Shown, ContentState, searching, targets,
  shown_of, publish, read, scan_content, worker_turn, resume, after_read, worker_answered, cancel,
  at_index, without_index, max_content_matches, max_matches_per_file, max_searchable_bytes,
  flush_ms, hit_of, cache_key, cache_get, first_error, could_not_read, ContentHit,
}

-- The hits of one answer: none, or at most five, and then the cap is tested.
abbrev pub Grown : Scan → Scan → Type 0
Grown s t =
    ((length t.hits ≡ length s.hits) × (t.capped ≡ s.capped))
    ⊎ ((length t.hits ≤ length s.hits + max_matches_per_file)
        × (length s.hits ≤ length t.hits)
        × (t.capped ≡ (s.capped || leb max_content_matches (length t.hits))))

-- What an answer does: to a search that was cancelled nothing but to end the worker.
abbrev pub Answered : ℕ → Scan → Scan → Type 0
Answered i s t =
    (t.reading ≡ without_index s.reading i)
    × (t.cursor ≡ s.cursor)
    × (t.cancelled ≡ s.cancelled)
    × (((s.cancelled ≡ true)
          × (t.ready ≡ s.ready)
          × (t.scanned ≡ s.scanned)
          × (length t.hits ≡ length s.hits)
          × (t.capped ≡ s.capped))
        ⊎ ((s.cancelled ≡ false)
            × (t.ready ≡ suc s.ready)
            × (t.scanned ≡ suc s.scanned)
            × Grown s t))

length-map_hits : {A B : Type 0} (f : A → B) (xs : List A) → length (map f xs) ≡ length xs
length-map_hits f [] = refl
length-map_hits f (x ∷ xs) = ap suc (length-map_hits f xs)

module _ (to_lower_case : Str → Str) (trimmed : Str) (candidates : List FlatNode) where
  pub data Step (s : Scan) : Scan → Type 0 where
    turn : 0 < s.ready → Step s (worker_turn to_lower_case trimmed candidates s)
    answer :
        (i : ℕ) (r : Reading) (a : Answer) (now : ℕ)
        → at_index s.reading i ≡ some r
        → Step s (worker_answered to_lower_case trimmed candidates i r a now s)
    cleanup : s.cancelled ≡ false → Step s (cancel to_lower_case trimmed candidates s)

  -- The searches that start with a cache and take a number of steps.
  pub data Runs (s : Scan) : ℕ → Scan → Type 0 where
    here : Runs s 0 s
    next : {n : ℕ} {u w : Scan} → Runs s n u → Step u w → Runs s (suc n) w

  publish_same :
      (state : ContentState) (force : Bool) (now : ℕ) (s : Scan)
      → (l : ℕ) × (v : Shown) × (publish to_lower_case trimmed candidates state force now s
          ≡ record s { last_flush = l; shown = v })
  publish_same state force now s =
      elim (Bool-cases (not force && ltb (now - s.last_flush) flush_ms)) [
        | inl e ↦ (s.last_flush, s.shown, simp e refl)
        | inr e ↦ (now, shown_of to_lower_case trimmed candidates state s, simp e refl)
      ]

  read_same :
      (n : FlatNode) (cached : Option Str) (a : Answer) (s : Scan)
      → (content : Option Str) × (c : List (Str × Str)) × (e : Option Str) × (read to_lower_case
            trimmed candidates n cached a s
          ≡ (content, record s { cache = c; error = e }))
  read_same n (some cached) a s = (some cached, s.cache, s.error, refl)
  read_same n none (received content) s =
      (some content, (cache_key n, content) ∷ s.cache, s.error, refl)
  read_same n none (api_error status message) s = elim (Bool-cases (status == 404)) [
    | inl e ↦ (none, s.cache, s.error, simp e refl)
    | inr e ↦ (none, s.cache, first_error s.error message, simp e refl)
  ]
  read_same n none other_error s = (none, s.cache, first_error s.error could_not_read, refl)

  scan_content_same :
      (n : FlatNode) (content : Option Str) (s : Scan)
      → (k : ℕ) × (h : List ContentHit) × (c : Bool) × (scan_content to_lower_case trimmed
            candidates n content s
          ≡ record s { skipped = k; hits = h; capped = c })
        × Grown s (record s { skipped = k; hits = h; capped = c })
  scan_content_same n none s = (s.skipped, s.hits, s.capped, refl, inl (refl, refl))
  scan_content_same n (some content) s =
      elim (Bool-cases (ltb max_searchable_bytes (length content) || looks_binary content)) [
        | inl e ↦ (suc s.skipped, s.hits, s.capped, simp e refl, inl (refl, refl))
        | inr e ↦
            let found = match_content to_lower_case content trimmed max_matches_per_file in
            let hits = s.hits ++ map (hit_of to_lower_case trimmed candidates n) found in
            let size =
              length-append s.hits (map (hit_of to_lower_case trimmed candidates n) found) in
            let mapped = length-map_hits (hit_of to_lower_case trimmed candidates n) found in
            let few = match_content_limit to_lower_case content trimmed max_matches_per_file in
            (
              s.skipped,
              hits,
              s.capped || leb max_content_matches (length hits),
              simp e refl,
              inr (omega arith, omega arith, refl),
            )
      ]

  resume-Answered :
      (i : ℕ) (n : FlatNode) (content : Option Str) (now : ℕ) (s : Scan) (c : List (Str × Str))
      (e : Option Str)
      → Answered i s (
          resume to_lower_case trimmed candidates n content now
            (record s { reading = without_index s.reading i; cache = c; error = e }))
  resume-Answered i n content now s c e = elim (Bool-cases s.cancelled) [
    | inl h ↦
        let same : resume to_lower_case trimmed candidates n content now
              (record s { reading = without_index s.reading i; cache = c; error = e })
            ≡ record s { reading = without_index s.reading i; cache = c; error = e } =
          ap (λ b. if b then read_state else go_on) h in
        subst (Answered i s) (sym same) (refl, refl, refl, inl (h, refl, refl, refl, refl))
    | inr h ↦
        let u : Scan = record read_state { scanned = suc s.scanned } in
        let (k, hits, capped, scanned, grown) = scan_content_same n content u in
        let v : Scan = record u {
          skipped = k;
          hits = hits;
          capped = capped;
          ready = suc s.ready;
        } in
        let (l, w, published) = publish_same searching false now v in
        let same : resume to_lower_case trimmed candidates n content now read_state
            ≡ record v { last_flush = l; shown = w } =
          ap (λ b. if b then read_state else go_on) h
          ∙ ap
              (λ x.
                publish to_lower_case trimmed candidates searching false now
                  (record x { ready = suc s.ready }))
              scanned
          ∙ published in
        subst (Answered i s) (sym same) (refl, refl, refl, inr (h, refl, refl, grown))
  ]
    where
      read_state : Scan
      read_state = record s { reading = without_index s.reading i; cache = c; error = e }

      go_on : Scan
      go_on =
          publish to_lower_case trimmed candidates searching false now
            (record (scan_content to_lower_case trimmed candidates n content
              (record read_state { scanned = suc s.scanned })) { ready = suc s.ready })

  pub worker_answered-Answered :
      (i : ℕ) (r : Reading) (a : Answer) (now : ℕ) (s : Scan)
      → Answered i s (worker_answered to_lower_case trimmed candidates i r a now s)
  unfolding worker_answered
  worker_answered-Answered i (n, cached) a now s =
      let (content, c, e, same) =
        read_same n cached a (record s { reading = without_index s.reading i }) in
      subst (λ x. Answered i s (after_read to_lower_case trimmed candidates n now x)) (sym same)
        (resume-Answered i n content now s c e)

  -- What a turn does: the worker returns, or takes the next target.
  pub worker_turn_cases :
      (s : Scan)
      → ((s.cancelled || s.capped) ≡ true)
          × (worker_turn to_lower_case trimmed candidates s ≡ record s { ready = s.ready - 1 })
        ⊎ ((s.cancelled || s.capped) ≡ false)
          × (at_index (targets to_lower_case trimmed candidates) s.cursor ≡ none)
          × (worker_turn to_lower_case trimmed candidates s
              ≡ record s { cursor = suc s.cursor; ready = s.ready - 1 })
        ⊎ ((s.cancelled || s.capped) ≡ false)
          × (n : FlatNode) × (o : Option Str) × (at_index
                (targets to_lower_case trimmed candidates)
                s.cursor
              ≡ some n)
          × (worker_turn to_lower_case trimmed candidates s ≡ record s {
            cursor = suc s.cursor;
            ready = s.ready - 1;
            reading = s.reading ++ (n, o) ∷ [];
          })
  unfolding worker_turn
  worker_turn_cases s = elim (Bool-cases (s.cancelled || s.capped)) [
    | inl h ↦ inl (h, simp h refl)
    | inr h ↦ elim (Option-cases (at_index (targets to_lower_case trimmed candidates) s.cursor)) [
      | inl e ↦ inr (inl (h, e, simp (h, e) refl))
      | inr (n, e) ↦ inr (inr (h, n, cache_get s.cache (cache_key n), e, simp (h, e) refl))
    ]
  ]
