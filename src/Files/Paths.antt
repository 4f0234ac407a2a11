-- ===== src/Files/Paths.antt =====
-- apps/server/src/modules/files/paths.ts. A text is a list of UTF-16 code units, which is what
-- `length`, `slice` and `split` count.
pub mod Valid
pub mod Ancestors
use collab_ide.Base.{
  ℕ, zero, suc, ◌+◌, ◌≤◌, Bool, not, ◌&&◌, ◌||◌, Option, none, some, List, [], ◌∷◌, ◌++◌, Str, text,
  ◌===◌, starts_with, ends_with_char, includes_char, trim, split, join, last_index_of, any, take,
  drop, length, ltb, leb, ◌==◌, if◌then◌else◌, AppError, Result, ok, err, ◌>>=◌, ◌>>◌, throw_if,
}

-- An argument that TypeScript types as unknown.
pub data Unknown : Type 0 where
  string : Str → Unknown
  other : Unknown

abbrev pub max_path_length : ℕ
max_path_length = 1024

abbrev pub max_segment_length : ℕ
max_segment_length = 255

abbrev pub max_depth : ℕ
max_depth = 32

abbrev pub slash : ℕ
slash = b'/'

abbrev pub backslash : ℕ
backslash = 0x5c

-- [\u0000-\u001f\u007f]
abbrev pub is_control : ℕ → Bool
is_control c = leb c 0x1f || (c == 0x7f)

abbrev pub dot : Str
dot = b'.' ∷ []

abbrev pub dot_dot : Str
dot_dot = b'.' ∷ b'.' ∷ []

unfoldable pub invalid : Str → AppError
invalid reason = record { status = 400; code = text "INVALID_PATH"; message = reason }

unfoldable pub check_segment : Str → Result (Unit {0})
check_segment segment = do
  throw_if (length segment == 0) (invalid (text "Path must not contain an empty segment"))
  throw_if ((segment === dot) || (segment === dot_dot))
      (invalid (text "Path must not contain \".\" or \"..\" segments"))
  throw_if (ltb max_segment_length (length segment))
      (invalid (text "Each path segment must be at most 255 characters"))
  throw_if (not (segment === trim segment))
      (invalid (text "Path segments must not start or end with whitespace"))

unfoldable pub check_segments : List Str → Result (Unit {0})
check_segments [] = ok tt
check_segments (segment ∷ rest) = check_segment segment >> check_segments rest

unfoldable pub assert_valid_string : Str → Result Str
assert_valid_string input = do
  throw_if (length input == 0) (invalid (text "Path must not be empty"))
  throw_if (ltb max_path_length (length input))
      (invalid (text "Path must be at most 1024 characters"))
  throw_if (not (input === trim input))
      (invalid (text "Path must not start or end with whitespace"))
  throw_if (any is_control input) (invalid (text "Path must not contain control characters"))
  throw_if (includes_char input backslash) (invalid (text "Path must use forward slashes"))
  throw_if (starts_with input (slash ∷ []))
      (invalid (text "Path must be relative to the project root"))
  throw_if (ends_with_char input slash) (invalid (text "Path must not end with a slash"))
  throw_if (ltb max_depth (length (split slash input)))
      (invalid (text "Path must be at most 32 levels deep"))
  check_segments (split slash input)
  ok input

unfoldable pub assert_valid_path : Unknown → Result Str
unfolding assert_valid_string
assert_valid_path other = err (invalid (text "Path must be a string"))
assert_valid_path (string input) = assert_valid_string input

base_name_at : Option ℕ → Str → Str
base_name_at none path = path
base_name_at (some index) path = drop (suc index) path

pub base_name : Str → Str
unfolding base_name_at
base_name path = base_name_at (last_index_of path slash) path

parent_path_at : Option ℕ → Str → Option Str
parent_path_at none path = none
parent_path_at (some index) path = some (take index path)

pub parent_path : Str → Option Str
unfolding parent_path_at
parent_path path = parent_path_at (last_index_of path slash) path

-- `segments.pop()`
unfoldable pub pop : List Str → List Str
pop [] = []
pop (x ∷ []) = []
pop (x ∷ y ∷ ys) = x ∷ pop (y ∷ ys)

-- The loop of `ancestorPaths`, with the number of rounds left.
unfoldable pub ancestors_from : List Str → ℕ → ℕ → List Str
ancestors_from segments i zero = []
ancestors_from segments i (suc rounds) =
    join slash (take (suc i) segments) ∷ ancestors_from segments (suc i) rounds

unfoldable pub ancestor_paths : Str → List Str
unfolding pop ancestors_from
ancestor_paths path =
    let segments = pop (split slash path) in ancestors_from segments 0 (length segments)

unfoldable pub is_descendant_of : Str → Str → Bool
is_descendant_of path directory = starts_with path (directory ++ slash ∷ [])

unfoldable pub replace_path_prefix : Str → Str → Str → Str
replace_path_prefix path from_dir to_dir = to_dir ++ drop (length from_dir) path
