-- ===== src/Search/Contents/Hits.antt =====
-- The results of `matchContent`: where they stand, how many there are, and that none is missing.
use collab_ide.Base.{
  ℕ, zero, suc, ◌+◌, ◌-◌, ◌≤◌, ◌<◌, ◌≡◌, ◌≢◌, inl, inr, refl, arith, true, List, [], ◌∷◌, some, Str,
  length, drop, starts_with, starts_with-length, index_of, index_of_found, index_of_first,
  index_of-none, Bool-cases, Option-cases, leb, leb→le, index_of_in_range, ◌==◌, any, length-drop,
}
use collab_ide.Search.Contents.{
  ContentMatch, Walk, walk_to, walk_start, line_end_of, search_from, match_in_line, match_content,
}
use collab_ide.Search.Contents.Lines.{
  line_at, line_breaks, line_at_mono, Placed, walk_to-Placed, line_end-ge, line_at-line_end,
  line_at-next,
}

-- Each result stands at an occurrence of the needle, carries the number of its line, and stands on a
-- later line than the result before it.
abbrev pub Listed : Str → Str → Str → ℕ → List ContentMatch → Type 0
Listed content haystack needle line [] = Unit
Listed content haystack needle line (m ∷ ms) =
    (line < m.line)
    × (m.line ≡ line_at content m.offset)
    × (starts_with (drop m.offset haystack) needle ≡ true)
    × Listed content haystack needle m.line ms

module _ (content haystack : Str) (same_length : length haystack ≡ length content) where
  line_at_le : (i j : ℕ) → i ≤ j → line_at content i ≤ line_at content j
  line_at_le i j h =
      let e : i + (j - i) ≡ j = omega arith in let le = line_at_mono content i (j - i) in rw e at le

  -- One round of the loop: where the hit stands, and what holds of the next round.
  pub round :
      (c : ℕ) (needle : Str) (cursor found : ℕ) (w : Walk)
      → Placed content w
      → w.scanned ≤ cursor
      → index_of (c ∷ needle) haystack cursor ≡ some found
      → (cursor ≤ found)
        × (found ≤ length content)
        × (cursor ≤ length content)
        × (starts_with (drop found haystack) (c ∷ needle) ≡ true)
        × Placed content (walk_to (found - w.scanned) content w)
        × ((walk_to (found - w.scanned) content w).scanned ≡ found)
        × ((walk_to (found - w.scanned) content w).line ≡ line_at content found)
        × (found ≤ line_end_of content found)
  round c needle cursor found w placed le e =
      let in_range = index_of_in_range c needle haystack cursor found e in
      let (after, in_haystack, starts) =
        index_of_found (c ∷ needle) haystack cursor found in_range e in
      let ((at, start), scanned) = walk_to-Placed (found - w.scanned) content w placed in
      let here : (walk_to (found - w.scanned) content w).scanned ≡ found = omega arith in
      let (ge, line_end_in) = line_end-ge content found (omega arith) in
      (after, omega arith, omega arith, starts, (at, start), here, rw here at at, ge)

  search_from-Listed :
      (n c : ℕ) (needle : Str) (cursor line : ℕ) (w : Walk)
      → Placed content w
      → w.scanned ≤ cursor
      → (cursor ≤ length content → line < line_at content cursor)
      → Listed content haystack
          (c ∷ needle)
          line
          (search_from n content haystack (c ∷ needle) cursor w)
  unfolding search_from match_in_line
  search_from-Listed zero c needle cursor line w placed le later = tt
  search_from-Listed (suc n) c needle cursor line w placed le later =
      elim (Option-cases (index_of (c ∷ needle) haystack cursor)) [
        | inl e ↦ rw (e, Listed) tt
        | inr (found, e) ↦
            let (after, in_s, cursor_in, starts, placed', scanned, at, ge) =
              round c needle cursor found w placed le e in
            let grows = line_at_le cursor found after in
            let before = later cursor_in in
            rw (e, Listed)
              (
                omega arith,
                at,
                starts,
                search_from-Listed n c needle (suc (line_end_of content found))
                    (walk_to (found - w.scanned) content w).line
                    (walk_to (found - w.scanned) content w) placed' (omega arith)
                    (λ more. let next = line_at-next content found in_s more in omega arith),
              )
      ]

  line_at_bound : (s : Str) (i : ℕ) → line_at s i ≤ suc (line_breaks s)
  line_at_bound s zero = omega arith
  line_at_bound [] (suc i) = omega arith
  line_at_bound (c ∷ s) (suc i) = ground (arith, line_at_bound s i)

  -- Every line that holds the needle is listed, when the limit exceeds the line breaks that are left.
  search_from_complete :
      (n c : ℕ) (needle : Str) (cursor p : ℕ) (w : Walk)
      → Placed content w
      → w.scanned ≤ cursor
      → cursor ≤ p
      → p < length haystack
      → starts_with (drop p haystack) (c ∷ needle) ≡ true
      → suc (line_breaks content) < n + line_at content cursor
      → any
          (λ m. m.line == line_at content p)
          (search_from n content haystack (c ∷ needle) cursor w)
        ≡ true
  unfolding search_from match_in_line
  search_from_complete zero c needle cursor p w placed le after in_s h room =
      let bound = line_at_bound content cursor in absurd (omega arith)
  search_from_complete (suc n) c needle cursor p w placed le after in_s h room =
      elim (Option-cases (index_of (c ∷ needle) haystack cursor)) [
        | inl e ↦
            let none_there = index_of-none (c ∷ needle) haystack cursor p e after (omega arith) in
            absurd (cc (rw none_there at h))
        | inr (found, e) ↦
            let (after', found_in, cursor_in, starts, placed', scanned, at, ge) =
              round c needle cursor found w placed le e in
            let first =
              index_of_first (c ∷ needle) haystack cursor found p e after (omega arith) h in
            let rest =
              search_from_complete n c needle (suc (line_end_of content found)) p
                (walk_to (found - w.scanned) content w) placed' (omega arith) in
            elim (Bool-cases (leb p (line_end_of content found))) [
              | inl same_line ↦
                  let here =
                    line_at-line_end content found p first
                      (leb→le p (line_end_of content found) same_line) found_in in
                  let head : ((walk_to (found - w.scanned) content w).line == line_at content p)
                      ≡ true =
                    ground arith in
                  rw (e, any, head) refl
              | inr next_line ↦
                  let grows = line_at_le cursor found after' in
                  let next = line_at-next content found found_in (ground arith) in
                  let found_later = rest (ground arith) in_s h (omega arith) in
                  rw (e, any) (ground (arith, found_later))
            ]
      ]

search_from_limit :
    (n : ℕ) (content haystack needle : Str) (cursor : ℕ) (w : Walk)
    → length (search_from n content haystack needle cursor w) ≤ n
unfolding search_from
search_from_limit zero content haystack needle cursor w = omega arith
search_from_limit (suc n) content haystack needle cursor w =
    elim (Option-cases (index_of needle haystack cursor)) [
      | inl e ↦ rw (e, length) (omega arith)
      | inr (found, e) ↦
          let rest =
            search_from_limit n content haystack needle (suc (line_end_of content found))
              (walk_to (found - w.scanned) content w) in
          rw (e, length) (omega arith)
    ]

pub match_content_limit :
    (to_lower_case : Str → Str) (content query : Str) (limit : ℕ)
    → length (match_content to_lower_case content query limit) ≤ limit
unfolding match_content
match_content_limit to_lower_case content [] limit = omega arith
match_content_limit to_lower_case content (c ∷ query) limit =
    search_from_limit limit content (to_lower_case content) (to_lower_case (c ∷ query)) 0 walk_start

module _ (to_lower_case : Str → Str) (content query : Str) where
  -- There are at most `limit` results. Each one stands at an occurrence of the query, in lower case,
  -- in the content, in lower case; its number is that of the line it stands on, and no two results
  -- stand on one line. The lower case of the content has the length of the content, and that of the
  -- query is not empty.
  pub match_content-Listed :
      (limit : ℕ)
      → length (to_lower_case content) ≡ length content
      → to_lower_case query ≢ []
      → (length (match_content to_lower_case content query limit) ≤ limit)
        × Listed content
            (to_lower_case content)
            (to_lower_case query)
            0
            (match_content to_lower_case content query limit)
  unfolding match_content
  match_content-Listed limit same ne = go query (to_lower_case query) refl ne
    where
      go :
          (q needle : Str)
          → to_lower_case q ≡ needle
          → needle ≢ []
          → (length (match_content to_lower_case content q limit) ≤ limit)
            × Listed content
                (to_lower_case content)
                needle
                0
                (match_content to_lower_case content q limit)
      go [] needle e ne = (omega arith, tt)
      go (d ∷ q) [] e ne = absurd (ne refl)
      go (d ∷ q) (c ∷ needle) e ne =
          rw (e, match_content)
            (
              search_from_limit limit content (to_lower_case content) (c ∷ needle) 0 walk_start,
              search_from-Listed content (to_lower_case content) same limit c needle 0 0 walk_start
                  (refl, omega arith) (omega arith) (λ h. omega arith),
            )

  -- With a limit above the number of line breaks no line is missed: the line of each place where the
  -- query, in lower case, stands in the content, in lower case, is the line of some result.
  pub match_content_complete :
      (limit p : ℕ)
      → length (to_lower_case content) ≡ length content
      → query ≢ []
      → to_lower_case query ≢ []
      → line_breaks content < limit
      → starts_with (drop p (to_lower_case content)) (to_lower_case query) ≡ true
      → any (λ m. m.line == line_at content p) (match_content to_lower_case content query limit)
        ≡ true
  unfolding match_content
  match_content_complete limit p same some_query ne room =
      go query (to_lower_case query) refl some_query ne
    where
      go :
          (q needle : Str)
          → to_lower_case q ≡ needle
          → q ≢ []
          → needle ≢ []
          → starts_with (drop p (to_lower_case content)) needle ≡ true
          → any (λ m. m.line == line_at content p) (match_content to_lower_case content q limit)
            ≡ true
      go [] needle e sq ne h = absurd (sq refl)
      go (d ∷ q) [] e sq ne h = absurd (ne refl)
      go (d ∷ q) (c ∷ needle) e sq ne h =
          let long = starts_with-length (drop p (to_lower_case content)) (c ∷ needle) h in
          let size = length-drop p (to_lower_case content) in
          rw (e, match_content)
            (search_from_complete content (to_lower_case content) same limit c needle 0 p walk_start
              (refl, omega arith) (omega arith) (omega arith) (omega arith) h (omega arith))
