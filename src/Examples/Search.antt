-- ===== src/Examples/Search.antt =====
-- Searching for a name and for a text in a small project.
use collab_ide.Base.{
  ◌&&◌, ℕ, ◌+◌, ◌≡◌, ◌≢◌, ◌↔◌, ◌≤◌, refl, inl, inr, arith, true, false, ◌&&◌, List, [], ◌∷◌, map,
  some, Str, length, is_space, leb, if◌then◌else◌, Bool-cases, any, ◌==◌, is_some, All, index_of,
  index_from, code_points, starts_with, drop, pos, trim, trim_start, keep, last_index_of,
}
use collab_ide.Search.Names.{
  NameMatch, match_path, range, scan_chars, subsequence_ranges, push_range,
}
use collab_ide.Search.Names.Greedy.{Scattered}
use collab_ide.Search.Names.Iff.{match_path_iff}
use collab_ide.Search.Names.Segments.{Laid, highlighted}
use collab_ide.Search.Names.Ranges.{match_path-highlighted}
use collab_ide.Search.Contents.{match_content, newline, search_from, match_in_line, walk_to}
use collab_ide.Search.Contents.Lines.{line_at}
use collab_ide.Search.Contents.Hits.{Listed, match_content-Listed, match_content_complete}
use collab_ide.Search.Contents.Marks.{Shown, match_content-Shown}
use collab_ide.Search.Tree.{
  FlatNode, TreeNodes, node, none_left, then_node, flatten_tree, filter_tree, filter_nodes,
  name_matches,
}
use collab_ide.Search.Tree.Filter.{named, FilesAreLeaves, Grounded, filter_tree-Grounded}

abbrev fold : ℕ → ℕ
fold c = if leb b'A' c && leb c b'Z' then c + 32 else c

abbrev lower : Str → Str
lower s = map fold s

fold-space : (c : ℕ) → is_space c ≡ true → is_space (fold c) ≡ true
unfolding is_space
fold-space c h = elim (Bool-cases (leb b'A' c && leb c b'Z')) [
  | inl e ↦ absurd (ground arith)
  | inr e ↦ rw e h
]

abbrev path : Str
path = b'a' ∷ b'x' ∷ b'B' ∷ []

abbrev query : Str
query = b'a' ∷ b'b' ∷ []

abbrev found : NameMatch
found = record { score = pos 1001; ranges = range 0 1 ∷ range 2 3 ∷ [] }

found_lem : match_path lower path query ≡ some found
unfolding match_path index_of index_from starts_with subsequence_ranges scan_chars code_points
    push_range last_index_of
found_lem = refl

one_unit : All (λ char. length char ≡ 1) (code_points (lower query))
unfolding code_points
one_unit = (refl, (refl, tt))

match_path_iff_example :
    (is_some (match_path lower path query) ≡ true)
    ↔ Scattered (code_points (lower query)) (lower path)
match_path_iff_example = match_path_iff lower path query (λ e. cc)

match_path-highlighted_example :
    Laid 0 found.ranges (length path) × (highlighted (lower path) found.ranges ≡ lower query)
match_path-highlighted_example =
    match_path-highlighted lower path query found (λ e. cc) one_unit refl found_lem

abbrev content : Str
content = b'x' ∷ newline ∷ b' ' ∷ b'B' ∷ b'b' ∷ newline ∷ b'b' ∷ []

abbrev letter : Str
letter = b'b' ∷ []

match_content-Listed_example :
    (length (match_content lower content letter 5) ≤ 5)
    × Listed content (lower content) (lower letter) 0 (match_content lower content letter 5)
match_content-Listed_example = match_content-Listed lower content letter 5 refl (λ e. cc)

starts_lem : starts_with (drop 4 (lower content)) (lower letter) ≡ true
unfolding starts_with
starts_lem = refl

match_content_complete_example :
    any (λ m. m.line == line_at content 4) (match_content lower content letter 5) ≡ true
match_content_complete_example =
    match_content_complete lower content letter 5 4 refl (λ e. cc) (λ e. cc) (omega arith)
      starts_lem

visible : is_space (fold b'b') ≡ false
unfolding is_space
visible = refl

match_content-Shown_example :
    All (Shown content (length letter)) (match_content (map fold) content letter 5)
match_content-Shown_example =
    match_content-Shown fold refl fold-space (map fold) content [] 5 b'b' refl refl visible refl

abbrev file : FlatNode
file = record { id = b'1' ∷ []; path = path; name = path; is_dir = false; updated_at = [] }

abbrev folder : FlatNode
folder = record { id = b'2' ∷ []; path = letter; name = letter; is_dir = true; updated_at = [] }

abbrev tree : TreeNodes
tree = then_node (node folder (then_node (node file none_left) none_left)) none_left

trimmed : trim query ≢ []
unfolding trim trim_start is_space
trimmed e = cc

leaves : FilesAreLeaves tree
leaves = ((λ e. cc), ((λ e. refl), tt, tt), tt)

filter_tree-Grounded_example :
    (keep (named (name_matches lower (trim query))) (flatten_tree (filter_tree lower tree query))
      ≡ keep (named (name_matches lower (trim query))) (flatten_tree tree))
    × Grounded (name_matches lower (trim query)) (filter_tree lower tree query)
    × (filter_nodes (name_matches lower (trim query)) (filter_tree lower tree query)
        ≡ filter_tree lower tree query)
filter_tree-Grounded_example = filter_tree-Grounded lower tree query trimmed leaves

abbrev all_nodes : List FlatNode
all_nodes = file ∷ folder ∷ file ∷ []

-- Where lower case is longer than the text, one place is found again and again: here each unit 304
-- becomes two units.
abbrev longer : Str → Str
longer [] = []
longer (c ∷ s) = if c == 304 then b'i' ∷ 775 ∷ longer s else c ∷ longer s

repeated_lem :
    map (λ m. m.offset) (match_content longer (304 ∷ 304 ∷ 304 ∷ b'x' ∷ []) (b'x' ∷ []) 3)
    ≡ 6 ∷ 6 ∷ 6 ∷ []
unfolding match_content search_from match_in_line index_of index_from starts_with walk_to trim_start
    is_space
repeated_lem = refl
