-- ===== src/Search/Tree/Filter.antt =====
-- What `filterTree` keeps.
use collab_ide.Base.{
  ◌≡◌, ◌≢◌, ◌⊎◌, inl, inr, refl, arith, Bool, true, false, List, [], ◌∷◌, ◌++◌, Str, keep, any,
  keep-append, any-append, Bool-cases, trim,
}
use collab_ide.Search.Tree.{
  FlatNode, TreeNodes, node, none_left, then_node, flatten_tree, has_nodes, push_dir, filter_nodes,
  filter_tree, filter_trimmed, name_matches,
}

-- A file has no children.
abbrev pub FilesAreLeaves : TreeNodes → Type 0
FilesAreLeaves none_left = Unit
FilesAreLeaves (then_node (node f children) rest) =
    ((f.is_dir ≡ false) → children ≡ none_left) × FilesAreLeaves children × FilesAreLeaves rest

module _ (matches : Str → Bool) where
  abbrev pub named : FlatNode → Bool
  named f = matches f.name

  -- Each node matches, and then stands with all that was below it, or is a directory with a match
  -- below it.
  abbrev pub Grounded : TreeNodes → Type 0
  Grounded none_left = Unit
  Grounded (then_node (node f children) rest) =
      ((named f ≡ true)
        ⊎ ((f.is_dir ≡ true) × (any named (flatten_tree children) ≡ true) × Grounded children))
      × Grounded rest

  no_nodes : (t : TreeNodes) → has_nodes t ≡ false → t ≡ none_left
  no_nodes none_left h = refl
  no_nodes (then_node n t) h = cc

  keep-halves :
      (xs xs' ys ys' : List FlatNode)
      → keep named xs ≡ keep named xs'
      → keep named ys ≡ keep named ys'
      → keep named (xs ++ ys) ≡ keep named (xs' ++ ys')
  keep-halves xs xs' ys ys' e e' =
      rw (keep-append named xs ys, keep-append named xs' ys', e, e') refl

  push_dir-keep :
      (f : FlatNode) (children rest kept others : TreeNodes)
      → named f ≡ false
      → keep named (flatten_tree kept) ≡ keep named (flatten_tree children)
      → keep named (flatten_tree others) ≡ keep named (flatten_tree rest)
      → keep named (flatten_tree (push_dir f kept others))
        ≡ keep named (flatten_tree children ++ flatten_tree rest)
  unfolding flatten_tree
  push_dir-keep f children rest none_left others m below next =
      keep-halves [] (flatten_tree children) (flatten_tree others) (flatten_tree rest) below next
  push_dir-keep f children rest (then_node n kept) others m below next = rw m (
      keep-halves (flatten_tree (then_node n kept)) (flatten_tree children) (flatten_tree others)
        (flatten_tree rest) below next)

  pub filter_nodes-keep :
      (t : TreeNodes)
      → FilesAreLeaves t
      → keep named (flatten_tree (filter_nodes matches t)) ≡ keep named (flatten_tree t)
  unfolding flatten_tree filter_nodes
  filter_nodes-keep none_left h = refl
  filter_nodes-keep (then_node (node f children) rest) (leaf, h, k) =
      let below = filter_nodes-keep children h in
      let others = filter_nodes-keep rest k in
      let whole =
        keep-halves (flatten_tree children) (flatten_tree children)
          (flatten_tree (filter_nodes matches rest)) (flatten_tree rest) refl others in
      elim (Bool-cases (matches f.name)) [
        | inl m ↦ elim (Bool-cases f.is_dir) [
          | inl d ↦ simp (d, m, whole) refl
          | inr d ↦ simp (d, m, whole) refl
        ]
        | inr m ↦ elim (Bool-cases f.is_dir) [
          | inl d ↦
              simp (d, m)
                (push_dir-keep f children rest (filter_nodes matches children)
                  (filter_nodes matches rest) m below others)
          | inr d ↦ simp (d, m, leaf d) others
        ]
      ]

  -- A kept list of nodes that is not empty holds a match.
  Grounded-any :
      (t : TreeNodes) → has_nodes t ≡ true → Grounded t → any named (flatten_tree t) ≡ true
  unfolding flatten_tree
  Grounded-any none_left h g = cc
  Grounded-any (then_node (node f children) rest) h (inl m, g) = rw (any, m) refl
  Grounded-any (then_node (node f children) rest) h (inr (d, below, under), g) =
      rw (any, any-append named (flatten_tree children) (flatten_tree rest), below) (ground arith)

  push_dir-Grounded :
      (f : FlatNode) (kept others : TreeNodes)
      → f.is_dir ≡ true
      → Grounded kept
      → Grounded others
      → Grounded (push_dir f kept others)
  push_dir-Grounded f none_left others d g k = k
  push_dir-Grounded f (then_node n kept) others d g k =
      (inr (d, Grounded-any (then_node n kept) refl g, g), k)

  pub filter_nodes-Grounded : (t : TreeNodes) → Grounded (filter_nodes matches t)
  unfolding filter_nodes
  filter_nodes-Grounded none_left = tt
  filter_nodes-Grounded (then_node (node f children) rest) = elim (Bool-cases (matches f.name)) [
    | inl m ↦ elim (Bool-cases f.is_dir) [
      | inl d ↦ simp (d, m) (inl refl, filter_nodes-Grounded rest)
      | inr d ↦ simp (d, m) (inl refl, filter_nodes-Grounded rest)
    ]
    | inr m ↦ elim (Bool-cases f.is_dir) [
      | inl d ↦
          simp (d, m)
            (push_dir-Grounded f (filter_nodes matches children) (filter_nodes matches rest) d
              (filter_nodes-Grounded children) (filter_nodes-Grounded rest))
      | inr d ↦ simp (d, m) (filter_nodes-Grounded rest)
    ]
  ]

  filter-push_dir :
      (f : FlatNode) (kept others : TreeNodes)
      → f.is_dir ≡ true
      → matches f.name ≡ false
      → filter_nodes matches kept ≡ kept
      → filter_nodes matches others ≡ others
      → filter_nodes matches (push_dir f kept others) ≡ push_dir f kept others
  unfolding filter_nodes
  filter-push_dir f none_left others d m e k = k
  filter-push_dir f (then_node n kept) others d m e k = simp (d, m, e, k) refl

  -- A tree that has been filtered is not changed by the same filter.
  pub filter_nodes_idempotent :
      (t : TreeNodes) → filter_nodes matches (filter_nodes matches t) ≡ filter_nodes matches t
  unfolding filter_nodes
  filter_nodes_idempotent none_left = refl
  filter_nodes_idempotent (then_node (node f children) rest) =
      let below = filter_nodes_idempotent children in
      let others = filter_nodes_idempotent rest in
      elim (Bool-cases (matches f.name)) [
        | inl m ↦ elim (Bool-cases f.is_dir) [
          | inl d ↦ simp (d, m, others) refl
          | inr d ↦ simp (d, m, others) refl
        ]
        | inr m ↦ elim (Bool-cases f.is_dir) [
          | inl d ↦
              simp (d, m)
                (filter-push_dir f (filter_nodes matches children) (filter_nodes matches rest) d m
                  below others)
          | inr d ↦ simp (d, m) others
        ]
      ]

module _ (to_lower_case : Str → Str) (tree : TreeNodes) (query : Str) where
  -- For a query that is not only white space, the filter keeps every node whose name matches, in the
  -- order of the tree; each node that it keeps matches, lies below a directory that matches, or is a
  -- directory with a match below it; and filtering again changes nothing. In the tree, files have no
  -- children.
  pub filter_tree-Grounded :
      trim query ≢ []
      → FilesAreLeaves tree
      → (keep
            (named (name_matches to_lower_case (trim query)))
            (flatten_tree (filter_tree to_lower_case tree query))
          ≡ keep (named (name_matches to_lower_case (trim query))) (flatten_tree tree))
        × Grounded (name_matches to_lower_case (trim query)) (filter_tree to_lower_case tree query)
        × (filter_nodes
              (name_matches to_lower_case (trim query))
              (filter_tree to_lower_case tree query)
            ≡ filter_tree to_lower_case tree query)
  unfolding filter_tree
  filter_tree-Grounded ne h = go (trim query) ne
    where
      go :
          (q : Str)
          → q ≢ []
          → (keep
                (named (name_matches to_lower_case q))
                (flatten_tree (filter_trimmed to_lower_case tree q))
              ≡ keep (named (name_matches to_lower_case q)) (flatten_tree tree))
            × Grounded (name_matches to_lower_case q) (filter_trimmed to_lower_case tree q)
            × (filter_nodes (name_matches to_lower_case q) (filter_trimmed to_lower_case tree q)
                ≡ filter_trimmed to_lower_case tree q)
      go [] some_query = absurd (some_query refl)
      go (c ∷ q) some_query =
          let matches = name_matches to_lower_case (c ∷ q) in
          (
            filter_nodes-keep matches tree h,
            filter_nodes-Grounded matches tree,
            filter_nodes_idempotent matches tree,
          )
