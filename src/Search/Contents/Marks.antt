-- ===== src/Search/Contents/Marks.antt =====
-- What the range of a result of `matchContent` marks in its snippet.
use collab_ide.Base.{
  ℕ, zero, suc, ◌+◌, ◌-◌, ◌≤◌, ◌≡◌, inl, inr, refl, ap, sym, ◌∙◌, arith, true, false, [], ◌∷◌, ◌++◌,
  append_assoc, map, some, Str, length, take, drop, slice, starts_with, starts_with-length,
  index_of, index_of_found, includes_char, is_space, char_code_at, Bool-cases, Option-cases, leb,
  drop_add, length-drop, All, length-take, pos, leb→le,
}
use collab_ide.Search.Contents.{
  ContentMatch, Walk, newline, walk_to, walk_start, line_end_of, search_from, match_in_line,
  match_content, indent_of, clip_from, clip_to, prefix_of, suffix_of, snippet_start,
}
use collab_ide.Search.Contents.Lines.{Placed, line_end-ge}
use collab_ide.Search.Contents.Snippets.{
  take-drop-take, take-drop_append, drop_past_prefix, indent_bound, char_code_at-drop,
  char_code_at-take, char_code_at-some, char_code_at-map, starts_with-char_code_at,
  includes_char-at,
}
use collab_ide.Search.Contents.Hits.{round}

-- The two ends of the one range of a result, as positions in its snippet.
abbrev pub Shown : Str → ℕ → ContentMatch → Type 0
Shown content size m =
    (start : ℕ) × (m.ranges ≡ record { start = pos start; end = pos (size + start) } ∷ [])
    × (slice m.snippet start (start + size) ≡ slice content m.offset (m.offset + size))

-- A hit that lies in its line, after the indent, is kept whole in the snippet.
match_in_line-Shown :
    (content : Str) (size found line_end : ℕ) (w : Walk)
    → w.line_start ≤ found
    → found + size ≤ line_end
    → line_end ≤ length content
    → indent_of (slice content w.line_start line_end) ≤ found - w.line_start
    → Shown content size (match_in_line (slice content w.line_start line_end) size w found)
unfolding match_in_line
match_in_line-Shown content size found line_end w after inside in_s indent =
    let raw = slice content w.line_start line_end in
    let column = found - w.line_start in
    let from = clip_from raw column in
    let to = clip_to raw column size in
    let raw_size : length raw ≡ line_end - w.line_start =
      (let t = length-take (line_end - w.line_start) (drop w.line_start content) in
        let d = length-drop w.line_start content in omega arith) in
    let before : from ≤ column = omega arith in
    let kept : from + ((column - from) + size) ≤ to = omega arith in
    let start : snippet_start raw column from
        ≡ pos (length (prefix_of raw from) + (column - from)) =
      ground arith in
    let m_size : (column - from) + size ≤ length (slice raw from to) =
      (let t = length-take (to - from) (drop from raw) in
        let d = length-drop from raw in omega arith) in
    let sub : length (prefix_of raw from)
          + (column - from)
          + size
          - (length (prefix_of raw from) + (column - from))
        ≡ size =
      omega arith in
    let sub' : found + size - found ≡ size = omega arith in
    let col : from + (column - from) ≡ column = omega arith in
    let here : w.line_start + column ≡ found = omega arith in
    let in_snippet =
      drop_past_prefix (prefix_of raw from) (slice raw from to ++ suffix_of raw to)
        (column - from) in
    let in_clip =
      take-drop_append size (column - from) (slice raw from to) (suffix_of raw to) m_size in
    let in_raw = take-drop-take size (column - from) (to - from) (drop from raw) (omega arith) in
    let in_content =
      take-drop-take size column (line_end - w.line_start) (drop w.line_start content)
        (omega arith) in
    (
      length (prefix_of raw from) + (column - from),
      rw start refl,
      rw (sub, sub')
          (ap (λ s. take size (drop (length (prefix_of raw from) + (column - from)) s))
              (append_assoc (prefix_of raw from) (slice raw from to) (suffix_of raw to))
            ∙ ap (take size) in_snippet
            ∙ in_clip
            ∙ in_raw
            ∙ ap (take size) (drop_add from (column - from) raw ∙ ap (λ k. drop k raw) col)
            ∙ in_content
            ∙ ap (take size)
                (drop_add w.line_start column content ∙ ap (λ k. drop k content) here)),
    )

-- A mapping of single units that keeps line breaks and white space apart from the rest.
module _ (fold : ℕ → ℕ) (keeps_newline : fold newline ≡ newline)
    (keeps_space : (c : ℕ) → is_space c ≡ true → is_space (fold c) ≡ true) where
  hit_in_line :
      (content needle : Str) (found : ℕ)
      → found ≤ length content
      → includes_char needle newline ≡ false
      → starts_with (drop found (map fold content)) needle ≡ true
      → found + length needle ≤ length content
      → found + length needle ≤ line_end_of content found
  hit_in_line content needle found in_s one_line starts room =
      elim (Option-cases (index_of (newline ∷ []) content found)) [
        | inl e ↦ rw (e, line_end_of) room
        | inr (j, e) ↦
            let (after, j_in, at) = index_of_found (newline ∷ []) content found j in_s e in
            elim (Bool-cases (leb (found + length needle) j)) [
              | inl h ↦ rw (e, line_end_of) (leb→le (found + length needle) j h)
              | inr h ↦
                  let there : found + (j - found) ≡ j = omega arith in
                  let break : char_code_at content j ≡ some newline =
                    (let b =
                        starts_with-char_code_at (drop j content) (newline ∷ []) 0 at
                          (omega arith) in
                      let z : j + 0 ≡ j = omega arith in
                      rw (char_code_at-drop j 0 content, z) at b) in
                  let lower = char_code_at-map fold content j newline break in
                  let in_needle =
                    starts_with-char_code_at (drop found (map fold content)) needle (j - found)
                      starts (ground arith) in
                  let here : char_code_at needle (j - found) ≡ some (fold newline) =
                    sym in_needle
                    ∙ char_code_at-drop found (j - found) (map fold content)
                    ∙ ap (char_code_at (map fold content)) there
                    ∙ lower in
                  absurd (
                    includes_char-at needle (j - found) newline (fold newline) one_line here
                      keeps_newline)
            ]
      ]

  hit_after_indent :
      (content needle : Str) (c start found line_end : ℕ)
      → start ≤ found
      → found + suc (length needle) ≤ line_end
      → line_end ≤ length content
      → is_space c ≡ false
      → starts_with (drop found (map fold content)) (c ∷ needle) ≡ true
      → indent_of (slice content start line_end) ≤ found - start
  hit_after_indent content needle c start found line_end after inside in_s visible starts =
      let (d, at) = char_code_at-some content found (omega arith) in
      let there : start + (found - start) ≡ found = omega arith in
      let lower = char_code_at-map fold content found d at in
      let z : found + 0 ≡ found = omega arith in
      let first =
        starts_with-char_code_at (drop found (map fold content)) (c ∷ needle) 0 starts
          (omega arith) in
      let same : some (fold d) ≡ some c =
        sym lower
        ∙ ap (char_code_at (map fold content)) (sym z)
        ∙ sym (char_code_at-drop found 0 (map fold content))
        ∙ first in
      let in_raw : char_code_at (slice content start line_end) (found - start) ≡ some d =
        char_code_at-take (line_end - start) (found - start) (drop start content) (omega arith)
        ∙ char_code_at-drop start (found - start) content
        ∙ ap (char_code_at content) there
        ∙ at in
      elim (Bool-cases (is_space d)) [
        | inl h ↦ let k = keeps_space d h in let e : fold d ≡ c = cc in absurd (cc (rw e at k))
        | inr h ↦ indent_bound (slice content start line_end) (found - start) d in_raw h
      ]

  length-map : (s : Str) → length (map fold s) ≡ length s
  length-map [] = refl
  length-map (c ∷ s) = ap suc (length-map s)

  search_from-Shown :
      (n c : ℕ) (content needle : Str) (cursor : ℕ) (w : Walk)
      → is_space c ≡ false
      → includes_char (c ∷ needle) newline ≡ false
      → Placed content w
      → w.scanned ≤ cursor
      → All
          (Shown content (length (c ∷ needle)))
          (search_from n content (map fold content) (c ∷ needle) cursor w)
  unfolding search_from
  search_from-Shown zero c content needle cursor w visible one_line placed le = tt
  search_from-Shown (suc n) c content needle cursor w visible one_line placed le =
      elim (Option-cases (index_of (c ∷ needle) (map fold content) cursor)) [
        | inl e ↦ rw (e, All) tt
        | inr (found, e) ↦
            let (after, in_s, cursor_in, starts, placed', scanned, at, ge) =
              round content (map fold content) (length-map content) c needle cursor found w placed
                le e in
            let long = starts_with-length (drop found (map fold content)) (c ∷ needle) starts in
            let size = length-drop found (map fold content) in
            let same = length-map content in
            let inside =
              hit_in_line content (c ∷ needle) found in_s one_line starts (omega arith) in
            let w' = walk_to (found - w.scanned) content w in
            let (line, start) = placed' in
            let (ge', in_content) = line_end-ge content found in_s in
            let indent =
              hit_after_indent content needle c w'.line_start found (line_end_of content found)
                (omega arith) inside in_content visible starts in
            rw (e, All)
              (
                match_in_line-Shown content (length (c ∷ needle)) found (line_end_of content found)
                    w' (omega arith) inside in_content indent,
                search_from-Shown n c content needle (suc (line_end_of content found)) w' visible
                    one_line placed' (omega arith),
              )
      ]

  -- The range of each result marks, in its snippet, the text of the content at its offset, as long as
  -- the query: where lower case of this content and of this query goes unit by unit, in a way that keeps line
  -- breaks and white space, and the query does not start with white space and has, in lower case, no line break.
  pub match_content-Shown :
      (to_lower_case : Str → Str) (content query : Str) (limit c : ℕ)
      → to_lower_case content ≡ map fold content
      → to_lower_case (c ∷ query) ≡ map fold (c ∷ query)
      → is_space (fold c) ≡ false
      → includes_char (map fold (c ∷ query)) newline ≡ false
      → All
          (Shown content (length (c ∷ query)))
          (match_content to_lower_case content (c ∷ query) limit)
  unfolding match_content
  match_content-Shown to_lower_case content query limit c by_unit query_by_unit visible one_line =
      let size : length (c ∷ query) ≡ length (map fold (c ∷ query)) =
        ap suc (sym (length-map query)) in
      rw (by_unit, query_by_unit, size)
        (search_from-Shown limit (fold c) content (map fold query) 0 walk_start visible one_line
          (refl, omega arith) (omega arith))
