-- ===== src/Persistence/Yjs.antt =====
-- The part of the Yjs library that the server calls, which the repository does not contain: a
-- document, applying an update to it, its encoded state, and the merge of several updates.
use collab_ide.Base.{ℕ, ◌≡◌, List, [], ◌∷◌}

abbrev pub Bytes : Type 0
Bytes = List ℕ

pub record Yjs : Type 1 where
  pub Doc : Type 0
  -- `new Y.Doc()`
  pub empty : Doc
  -- `Y.applyUpdate`
  pub apply : Doc → Bytes → Doc
  -- `Y.encodeStateAsUpdate`
  pub encode : Doc → Bytes
  -- `Y.mergeUpdates`
  pub merge : List Bytes → Bytes

-- `for (const update of updates) Y.applyUpdate(doc, update)`
abbrev pub apply_all : (y : Yjs) → y.Doc → List Bytes → y.Doc
apply_all y d [] = d
apply_all y d (u ∷ us) = apply_all y (y.apply d u) us

-- Documented: a new document to which the encoded state is applied is in that state.
abbrev pub EncodesState : Yjs → Type 0
EncodesState y = (d : y.Doc) → y.apply y.empty (y.encode d) ≡ d

-- Documented: a merged update does what its parts do in turn.
abbrev pub Merges : Yjs → Type 0
Merges y = (d : y.Doc) (us : List Bytes) → y.apply d (y.merge us) ≡ apply_all y d us

-- Documented: updates commute.
abbrev pub Commutes : Yjs → Type 0
Commutes y = (d : y.Doc) (u v : Bytes) → y.apply (y.apply d u) v ≡ y.apply (y.apply d v) u
