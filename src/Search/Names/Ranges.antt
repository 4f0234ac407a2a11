-- ===== src/Search/Names/Ranges.antt =====
-- The ranges that `matchPath` returns for highlighting.
use collab_ide.Base.{
  ℕ, suc, ◌+◌, ◌-◌, ◌≤◌, ◌≡◌, ◌≢◌, inl, inr, refl, ap, ◌∙◌, arith, List, [], ◌∷◌, ◌++◌,
  append_assoc, append-nil, Option, none, some, Str, length, drop, slice, starts_with-take,
  starts_with-length, index_of, index_of_found, All, Option-cases, code_points, length-drop,
}
use collab_ide.Search.Names.{
  Range, range, NameMatch, Subsequence, push_range, first_or, scan_chars, match_path,
  subsequence_ranges, scattered_match, name_start,
}
use collab_ide.Search.Names.Greedy.{index_of_lt}
use collab_ide.Search.Names.Iff.{code_points-NonEmpty}
use collab_ide.Search.Names.Segments.{
  Laid, highlighted, concat, concat-code_points, push_range-Laid, highlighted-push_range,
}

Laid-mono : (lo hi hi' : ℕ) (rs : List Range) → hi ≤ hi' → Laid lo rs hi → Laid lo rs hi'
Laid-mono lo hi hi' [] le h = omega arith
Laid-mono lo hi hi' (r ∷ rs) le (a, b, c) = (a, b, Laid-mono r.end hi hi' rs le c)

scan_chars-Laid :
    (s : Str) (size : ℕ) (chars : List Str) (cursor hi : ℕ) (first : Option ℕ) (ranges : List Range)
    (r : Subsequence)
    → All (λ char. char ≢ []) chars
    → hi ≤ cursor
    → hi ≤ length s
    → Laid 0 ranges hi
    → scan_chars s size chars cursor first ranges ≡ some r
    → Laid 0 r.ranges (length s)
unfolding scan_chars
scan_chars-Laid s size [] cursor hi first ranges r h le in_s laid e =
    let same : ranges ≡ r.ranges = cc in rw (← same) (Laid-mono 0 hi (length s) ranges in_s laid)
scan_chars-Laid s size (char ∷ chars) cursor hi first ranges r (ne, h) le in_s laid e =
    elim (Option-cases (index_of char s cursor)) [
      | inl none_found ↦ cc (rw (none_found, scan_chars) at e)
      | inr (j, at) ↦
          let (in_range, after, lt) = index_of_lt char s cursor j ne at in
          scan_chars-Laid s size chars (suc j) (suc j) (first_or first j) (push_range ranges j) r h
            (omega arith) (omega arith) (push_range-Laid 0 hi j ranges laid (omega arith))
            (rw (at, scan_chars) at e)
    ]

-- A character of one unit is what stands at its place.
slice-index_of :
    (char s : Str) (cursor j : ℕ)
    → length char ≡ 1
    → char ≢ []
    → index_of char s cursor ≡ some j
    → slice s j (suc j) ≡ char
slice-index_of char s cursor j one ne at =
    let (in_range, from_cursor, lt) = index_of_lt char s cursor j ne at in
    let (after, le, starts) = index_of_found char s cursor j in_range at in
    let e : suc j - j ≡ length char = omega arith in rw e (starts_with-take (drop j s) char starts)

scan_chars-highlighted :
    (s : Str) (size : ℕ) (chars : List Str) (cursor hi : ℕ) (first : Option ℕ) (ranges : List Range)
    (r : Subsequence)
    → All (λ char. char ≢ []) chars
    → All (λ char. length char ≡ 1) chars
    → hi ≤ cursor
    → Laid 0 ranges hi
    → scan_chars s size chars cursor first ranges ≡ some r
    → highlighted s r.ranges ≡ highlighted s ranges ++ concat chars
unfolding scan_chars
scan_chars-highlighted s size [] cursor hi first ranges r h one le laid e =
    let same : ranges ≡ r.ranges = cc in rw (← same, append-nil (highlighted s ranges)) refl
scan_chars-highlighted s size (char ∷ chars) cursor hi first ranges r (ne, h) (unit, one) le laid
      e =
    elim (Option-cases (index_of char s cursor)) [
      | inl none_found ↦ cc (rw (none_found, scan_chars) at e)
      | inr (j, at) ↦
          let (in_range, after, lt) = index_of_lt char s cursor j ne at in
          let rest =
            scan_chars-highlighted s size chars (suc j) (suc j) (first_or first j)
              (push_range ranges j) r h one (omega arith)
              (push_range-Laid 0 hi j ranges laid (omega arith)) (rw (at, scan_chars) at e) in
          let here = highlighted-push_range s 0 hi j ranges laid (omega arith) in
          let piece = slice-index_of char s cursor j unit ne at in
          rest
          ∙ ap (λ x. x ++ concat chars) (here ∙ ap (◌++◌ (highlighted s ranges)) piece)
          ∙ append_assoc (highlighted s ranges) char (concat chars)
    ]

Marks : Str → Str → List Range → Type 0
Marks haystack needle ranges =
    Laid 0 ranges (length haystack) × (highlighted haystack ranges ≡ needle)

subsequence_ranges-Marks :
    (haystack needle : Str) (from : ℕ) (r : Subsequence)
    → All (λ char. length char ≡ 1) (code_points needle)
    → subsequence_ranges haystack needle from ≡ some r
    → Marks haystack needle r.ranges
unfolding subsequence_ranges Marks
subsequence_ranges-Marks haystack needle from r one e =
    let chars = code_points-NonEmpty needle in
    (
      scan_chars-Laid haystack (length needle) (code_points needle) from 0 none [] r chars
          (omega arith) (omega arith) (omega arith) e,
      scan_chars-highlighted haystack (length needle) (code_points needle) from 0 none [] r chars
            one (omega arith) (omega arith) e
          ∙ concat-code_points needle,
    )

direct-Marks :
    (haystack needle : Str) (direct : ℕ)
    → needle ≢ []
    → index_of needle haystack 0 ≡ some direct
    → Marks haystack needle (range direct (direct + length needle) ∷ [])
unfolding Marks
direct-Marks haystack [] direct ne e = absurd (ne refl)
direct-Marks haystack (c ∷ needle) direct ne e =
    let (after, in_range, starts) = index_of_found (c ∷ needle) haystack 0 direct (omega arith) e in
    let room = starts_with-length (drop direct haystack) (c ∷ needle) starts in
    let size = length-drop direct haystack in
    let same : direct + length (c ∷ needle) - direct ≡ length (c ∷ needle) = omega arith in
    let piece = starts_with-take (drop direct haystack) (c ∷ needle) starts in
    (
      (omega arith, omega arith, omega arith),
      append-nil (slice haystack direct (direct + length (c ∷ needle))) ∙ rw same piece,
    )

module _ (to_lower_case : Str → Str) where
  scattered_match-Marks :
      (haystack needle : Str) (start : ℕ) (m : NameMatch)
      → All (λ char. length char ≡ 1) (code_points needle)
      → scattered_match to_lower_case haystack needle start ≡ some m
      → Marks haystack needle m.ranges
  scattered_match-Marks haystack needle start m one e =
      elim (Option-cases (subsequence_ranges haystack needle start)) [
        | inr (r, found) ↦
            let same : r.ranges ≡ m.ranges = cc (rw (found, scattered_match) at e) in
            rw (← same) (subsequence_ranges-Marks haystack needle start r one found)
        | inl missed ↦ elim (Option-cases (subsequence_ranges haystack needle 0)) [
          | inr (r, found) ↦
              let same : r.ranges ≡ m.ranges = cc (rw (missed, found, scattered_match) at e) in
              rw (← same) (subsequence_ranges-Marks haystack needle 0 r one found)
          | inl missed' ↦ cc (rw (missed, missed', scattered_match) at e)
        ]
      ]

  match_path-Marks :
      (path query : Str) (m : NameMatch)
      → to_lower_case query ≢ []
      → All (λ char. length char ≡ 1) (code_points (to_lower_case query))
      → match_path to_lower_case path query ≡ some m
      → Laid 0 m.ranges (length (to_lower_case path))
        × (highlighted (to_lower_case path) m.ranges ≡ to_lower_case query)
  unfolding match_path Marks
  match_path-Marks path [] m ne one e = cc
  match_path-Marks path (c ∷ query) m ne one e =
      elim (Option-cases (index_of (to_lower_case (c ∷ query)) (to_lower_case path) 0)) [
        | inr (direct, found) ↦
            let same : range direct (direct + length (to_lower_case (c ∷ query))) ∷ [] ≡ m.ranges =
              cc (rw (found, match_path) at e) in
            rw (← same)
              (direct-Marks (to_lower_case path) (to_lower_case (c ∷ query)) direct ne found)
        | inl missed ↦
            scattered_match-Marks (to_lower_case path) (to_lower_case (c ∷ query)) (name_start path)
              m one (rw (missed, match_path) at e)
      ]

  -- The ranges of a match are not empty, do not overlap and stand in order inside of the path, and
  -- what they mark of the path in lower case is the query in lower case: where the path is as long in
  -- lower case as it is, and the query in lower case is not empty and has no surrogate pair.
  pub match_path-highlighted :
      (path query : Str) (m : NameMatch)
      → to_lower_case query ≢ []
      → All (λ char. length char ≡ 1) (code_points (to_lower_case query))
      → length (to_lower_case path) ≡ length path
      → match_path to_lower_case path query ≡ some m
      → Laid 0 m.ranges (length path)
        × (highlighted (to_lower_case path) m.ranges ≡ to_lower_case query)
  match_path-highlighted path query m ne one same e =
      rw (← same) (match_path-Marks path query m ne one e)
