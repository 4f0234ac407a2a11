-- ===== src/Search/Names.antt =====
-- Name matching: `matchPath` and `subsequenceRanges` of apps/web/src/features/search/match.ts.
use collab_ide.Base.{
  ℕ, suc, ◌+◌, Bool, true, false, List, [], ◌∷◌, Option, none, some, Str, length, if◌then◌else◌,
  leb, ◌==◌, index_of, code_points, last_index_of, ℤ, pos, ◌⊖◌, ◌+ℤ◌,
}
pub mod Greedy
pub mod Iff
pub mod Segments
pub mod Ranges

-- A slice [start, end) of the string that was searched.
pub record Range : Type 0 where
  pub start : ℕ
  pub end : ℕ

pub record NameMatch : Type 0 where
  pub score : ℤ
  pub ranges : List Range

pub record Subsequence : Type 0 where
  pub ranges : List Range
  pub spread : ℤ

abbrev pub range : ℕ → ℕ → Range
range start end = record { start = start; end = end }

-- The last range is lengthened when the new character stands right after it.
unfoldable pub push_range : List Range → ℕ → List Range
push_range [] found = range found (suc found) ∷ []
push_range (last ∷ []) found =
    if last.end == found
    then record last { end = suc found } ∷ []
    else last ∷ range found (suc found) ∷ []
push_range (r ∷ last ∷ rs) found = r ∷ push_range (last ∷ rs) found

-- `first`, which is -1 before the first character is found.
abbrev pub spread_of : ℕ → Option ℕ → ℕ → ℤ
spread_of cursor none size = suc cursor ⊖ size
spread_of cursor (some first) size = cursor ⊖ (first + size)

abbrev pub first_or : Option ℕ → ℕ → Option ℕ
first_or none found = some found
first_or (some first) found = some first

-- The loop over the needle's characters, with its variables cursor, first and ranges.
unfoldable pub scan_chars : Str → ℕ → List Str → ℕ → Option ℕ → List Range → Option Subsequence
scan_chars haystack size [] cursor first ranges =
    some (record { ranges = ranges; spread = spread_of cursor first size })
scan_chars haystack size (char ∷ chars) cursor first ranges = elim (index_of char haystack cursor) [
  | none ↦ none
  | some found ↦
      scan_chars haystack size chars (suc found) (first_or first found) (push_range ranges found)
]

unfoldable pub subsequence_ranges : Str → Str → ℕ → Option Subsequence
unfolding scan_chars
subsequence_ranges haystack needle from =
    scan_chars haystack (length needle) (code_points needle) from none []

-- `path.lastIndexOf('/') + 1`
abbrev pub name_start : Str → ℕ
name_start path = elim (last_index_of path b'/') [ none ↦ 0 | some i ↦ suc i ]

abbrev pub base_score : ℕ → ℕ → ℕ
base_score direct start = if leb start direct then (if direct == start then 0 else 100) else 300

-- `toLowerCase` is the language's; its case tables are not in the source.
module _ (to_lower_case : Str → Str) where
  abbrev pub scattered_match : Str → Str → ℕ → Option NameMatch
  scattered_match haystack needle start = elim (subsequence_ranges haystack needle start) [
    | some in_name ↦ some (record { score = 1000 +ℤ in_name.spread; ranges = in_name.ranges })
    | none ↦ elim (subsequence_ranges haystack needle 0) [
      | some anywhere ↦ some (record { score = 2000 +ℤ anywhere.spread; ranges = anywhere.ranges })
      | none ↦ none
    ]
  ]

  unfoldable pub match_path : Str → Str → Option NameMatch
  match_path path [] = none
  match_path path (c ∷ query) =
      let haystack = to_lower_case path in
      let needle = to_lower_case (c ∷ query) in
      elim (index_of needle haystack 0) [
        | some direct ↦ some (record {
          score = pos (base_score direct (name_start path) + direct);
          ranges = range direct (direct + length needle) ∷ [];
        })
        | none ↦ scattered_match haystack needle (name_start path)
      ]
