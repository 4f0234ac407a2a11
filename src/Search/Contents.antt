-- ===== src/Search/Contents.antt =====
-- Content search: `matchContent`, `looksBinary` and `isContentSearchable` of
-- apps/web/src/features/search/match.ts.
use collab_ide.Base.{
  ℕ, zero, suc, ◌+◌, ◌-◌, min, max, Bool, true, false, List, [], ◌∷◌, ◌++◌, Option, none, some, Str,
  text, ◌===◌, length, take, drop, slice, if◌then◌else◌, ltb, leb, ◌==◌, any, not, ◌&&◌, split,
  last_index_of, trim_start, index_of, char_code_at, ℤ, ◌⊖◌, ◌+ℤ◌,
}
pub mod Lines
pub mod Hits
pub mod Snippets
pub mod Marks

-- A range over a snippet; its start is computed with a subtraction.
pub record SnippetRange : Type 0 where
  pub start : ℤ
  pub end : ℤ

pub record ContentMatch : Type 0 where
  pub line : ℕ
  pub snippet : Str
  pub ranges : List SnippetRange
  pub offset : ℕ

-- The loop's variables for the line that the walk has reached.
pub record Walk : Type 0 where
  pub line : ℕ
  pub line_start : ℕ
  pub scanned : ℕ

abbrev pub newline : ℕ
newline = 10

abbrev pub is_newline : Option ℕ → Bool
is_newline none = false
is_newline (some c) = c == newline

abbrev pub walk_step : Str → Walk → Walk
walk_step content w =
    if is_newline (char_code_at content w.scanned)
    then record { line = suc w.line; line_start = suc w.scanned; scanned = suc w.scanned }
    else record w { scanned = suc w.scanned }

-- `while (scanned < found)`: the first argument is `found - scanned`.
unfoldable pub walk_to : ℕ → Str → Walk → Walk
walk_to zero content w = w
walk_to (suc n) content w = walk_to n content (walk_step content w)

abbrev pub line_end_of : Str → ℕ → ℕ
line_end_of content found = elim (index_of (newline ∷ []) content found) [
  | none ↦ length content
  | some i ↦ i
]

abbrev pub snippet_before : ℕ
snippet_before = 32

abbrev pub snippet_after : ℕ
snippet_after = 120

abbrev pub ellipsis : Str
ellipsis = 0x2026 ∷ []

abbrev pub indent_of : Str → ℕ
indent_of raw = length raw - length (trim_start raw)

-- `Math.max(indent, column - SNIPPET_BEFORE)`: the indent is never negative, so a difference
-- that stops at 0 gives the same maximum.
abbrev pub clip_from : Str → ℕ → ℕ
clip_from raw column = max (indent_of raw) (column - snippet_before)

abbrev pub clip_to : Str → ℕ → ℕ → ℕ
clip_to raw column size = min (length raw) (column + size + snippet_after)

abbrev pub prefix_of : Str → ℕ → Str
prefix_of raw from = if ltb (indent_of raw) from then ellipsis else []

abbrev pub suffix_of : Str → ℕ → Str
suffix_of raw to = if ltb to (length raw) then ellipsis else []

abbrev pub snippet_of : Str → ℕ → ℕ → Str
snippet_of raw from to = prefix_of raw from ++ slice raw from to ++ suffix_of raw to

abbrev pub snippet_start : Str → ℕ → ℕ → ℤ
snippet_start raw column from = length (prefix_of raw from) +ℤ (column ⊖ from)

unfoldable pub match_in_line : Str → ℕ → Walk → ℕ → ContentMatch
match_in_line raw size w found =
    let column = found - w.line_start in
    let from = clip_from raw column in
    record {
      line = w.line;
      snippet = snippet_of raw from (clip_to raw column size);
      ranges =
          record {
            start = snippet_start raw column from;
            end = size +ℤ snippet_start raw column from;
          }
          ∷ [];
      offset = found;
    }

-- The loop `while (matches.length < limit)`: each round adds one match or leaves, so the first
-- argument is `limit - matches.length`.
unfoldable pub search_from : ℕ → Str → Str → Str → ℕ → Walk → List ContentMatch
search_from zero content haystack needle cursor w = []
search_from (suc n) content haystack needle cursor w = elim (index_of needle haystack cursor) [
  | none ↦ []
  | some found ↦
      let w' = walk_to (found - w.scanned) content w in
      let line_end = line_end_of content found in
      match_in_line (slice content w'.line_start line_end) (length needle) w' found
      ∷ search_from n content haystack needle (suc line_end) w'
]

abbrev pub walk_start : Walk
walk_start = record { line = 1; line_start = 0; scanned = 0 }

unfoldable pub match_content : (Str → Str) → Str → Str → ℕ → List ContentMatch
unfolding search_from
match_content to_lower_case content [] limit = []
match_content to_lower_case content (c ∷ query) limit =
    search_from limit content (to_lower_case content) (to_lower_case (c ∷ query)) 0 walk_start

-- A NUL in the first 4096 units.
abbrev pub looks_binary : Str → Bool
looks_binary content = any (λ c. c == 0) (take 4096 content)

abbrev pub ignored_segments : List Str
ignored_segments =
    text "node_modules"
    ∷ text ".git"
    ∷ text "dist"
    ∷ text "build"
    ∷ text "out"
    ∷ text "coverage"
    ∷ text "vendor"
    ∷ text "target"
    ∷ text "__pycache__"
    ∷ text ".venv"
    ∷ text "venv"
    ∷ text ".next"
    ∷ text ".cache"
    ∷ text ".turbo"
    ∷ []

abbrev pub binary_extensions : List Str
binary_extensions =
    text "png"
    ∷ text "jpg"
    ∷ text "jpeg"
    ∷ text "gif"
    ∷ text "webp"
    ∷ text "avif"
    ∷ text "bmp"
    ∷ text "ico"
    ∷ text "icns"
    ∷ text "tiff"
    ∷ text "pdf"
    ∷ text "zip"
    ∷ text "gz"
    ∷ text "tgz"
    ∷ text "bz2"
    ∷ text "xz"
    ∷ text "7z"
    ∷ text "rar"
    ∷ text "jar"
    ∷ text "war"
    ∷ text "mp3"
    ∷ text "mp4"
    ∷ text "wav"
    ∷ text "ogg"
    ∷ text "webm"
    ∷ text "mov"
    ∷ text "avi"
    ∷ text "mkv"
    ∷ text "flac"
    ∷ text "woff"
    ∷ text "woff2"
    ∷ text "ttf"
    ∷ text "otf"
    ∷ text "eot"
    ∷ text "exe"
    ∷ text "dll"
    ∷ text "so"
    ∷ text "dylib"
    ∷ text "bin"
    ∷ text "wasm"
    ∷ text "class"
    ∷ text "pyc"
    ∷ text "o"
    ∷ text "a"
    ∷ text "db"
    ∷ text "sqlite"
    ∷ text "sqlite3"
    ∷ text "lock"
    ∷ []

-- `path.slice(path.lastIndexOf('/') + 1)`
abbrev pub file_name : Str → Str
file_name path = elim (last_index_of path b'/') [ none ↦ path | some i ↦ drop (suc i) path ]

abbrev pub extension_from : (Str → Str) → Str → Option ℕ → Str
extension_from to_lower_case name none = []
extension_from to_lower_case name (some dot) =
    if leb dot 0 then [] else to_lower_case (drop (suc dot) name)

abbrev pub extension_of : (Str → Str) → Str → Str
extension_of to_lower_case path =
    extension_from to_lower_case (file_name path) (last_index_of (file_name path) b'.')

unfoldable pub is_content_searchable : (Str → Str) → Str → Bool
is_content_searchable to_lower_case path =
    not (any (λ segment. any (λ s. s === segment) ignored_segments) (split b'/' path))
    && not (any (λ s. s === extension_of to_lower_case path) binary_extensions)
