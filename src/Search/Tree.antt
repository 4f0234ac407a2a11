-- ===== src/Search/Tree.antt =====
-- The project's tree in the browser: `flattenTree`, `filterTree` and `directoryPaths` of
-- apps/web/src/features/search/match.ts, over `TreeNode` of apps/web/src/lib/types.ts without its
-- creation time.
use collab_ide.Base.{Bool, true, false, List, [], ◌∷◌, ◌++◌, Str, if◌then◌else◌, is_some, trim}
use collab_ide.Search.Names.{match_path}
pub mod Filter

-- A node without its children: FlatNode.
pub record FlatNode : Type 0 where
  pub id : Str
  pub path : Str
  pub name : Str
  pub is_dir : Bool
  pub updated_at : Str

mutual
  pub data TreeNode : Type 0 where
    node : FlatNode → TreeNodes → TreeNode

  -- `TreeNode[]`
  pub data TreeNodes : Type 0 where
    none_left : TreeNodes
    then_node : TreeNode → TreeNodes → TreeNodes

-- Depth first, a node before its children.
unfoldable pub flatten_tree : TreeNodes → List FlatNode
flatten_tree none_left = []
flatten_tree (then_node (node f children) rest) = f ∷ flatten_tree children ++ flatten_tree rest

unfoldable pub directory_paths : TreeNodes → List Str
directory_paths none_left = []
directory_paths (then_node (node f children) rest) =
    let below = directory_paths children in
    let others = directory_paths rest in if f.is_dir then f.path ∷ below ++ others else others

abbrev pub has_nodes : TreeNodes → Bool
has_nodes none_left = false
has_nodes (then_node n ns) = true

abbrev pub push_dir : FlatNode → TreeNodes → TreeNodes → TreeNodes
push_dir f kept others = if has_nodes kept then then_node (node f kept) others else others

-- `walk` of filterTree, over the test of a name.
unfoldable pub filter_nodes : (Str → Bool) → TreeNodes → TreeNodes
filter_nodes matches none_left = none_left
filter_nodes matches (then_node (node f children) rest) =
    let kept = filter_nodes matches children in
    let others = filter_nodes matches rest in
    if f.is_dir
    then (if matches f.name then then_node (node f children) others else push_dir f kept others)
    else (if matches f.name then then_node (node f children) others else others)

module _ (to_lower_case : Str → Str) where
  abbrev pub name_matches : Str → Str → Bool
  name_matches trimmed name = is_some (match_path to_lower_case name trimmed)

  abbrev pub filter_trimmed : TreeNodes → Str → TreeNodes
  filter_trimmed tree [] = tree
  filter_trimmed tree (c ∷ trimmed) = filter_nodes (name_matches (c ∷ trimmed)) tree

  unfoldable pub filter_tree : TreeNodes → Str → TreeNodes
  unfolding filter_nodes
  filter_tree tree query = filter_trimmed tree (trim query)
