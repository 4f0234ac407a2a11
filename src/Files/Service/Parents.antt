-- ===== src/Files/Service/Parents.antt =====
-- files/service.ts: directories above the paths of the table, and the loop that makes them.
use collab_ide.Base.{
  ◌≡◌, refl, sym, ◌∙◌, ◌⊎◌, inl, inr, Bool, true, ◌&&◌, ◌||◌, some, List, [], ◌∷◌, ◌++◌, any,
  any-append, find, Str, ◌===◌, ===_iff, starts_with, arith,
}
use collab_ide.Files.Rows.{FileRow, at_path}
use collab_ide.Files.Paths.{ancestor_paths, is_descendant_of}
use collab_ide.Files.Paths.Ancestors.{ancestor_paths-is_descendant_of}

abbrev pub dir_at : Str → Str → FileRow → Bool
dir_at project_id path r = at_path project_id path r && r.is_dir

abbrev listed : List Str → Str → Bool
listed dirs x = any (λ a. a === x) dirs

pub record Rooted (rows : List FileRow) : Type 0 where
  pub parents :
      (p x a : Str)
      → any (at_path p x) rows ≡ true
      → is_descendant_of x a ≡ true
      → any (dir_at p a) rows ≡ true

starts_with_trans :
    (x y z : Str) → starts_with x y ≡ true → starts_with y z ≡ true → starts_with x z ≡ true
unfolding starts_with
starts_with_trans x y [] h k = refl
starts_with_trans x [] (c ∷ z) h k = cc
starts_with_trans [] (d ∷ y) (c ∷ z) h k = cc
starts_with_trans (e ∷ x) (d ∷ y) (c ∷ z) h k = ground (arith, starts_with_trans x y z)

starts_with_self : (x z : Str) → starts_with (x ++ z) x ≡ true
unfolding starts_with
starts_with_self [] z = refl
starts_with_self (c ∷ x) z = ground (arith, starts_with_self x z)

-- An ancestor of an ancestor is an ancestor.
pub is_descendant_of_trans :
    (x y z : Str)
    → is_descendant_of x y ≡ true
    → is_descendant_of y z ≡ true
    → is_descendant_of x z ≡ true
unfolding is_descendant_of
is_descendant_of_trans x y z h k =
    starts_with_trans x y _ (starts_with_trans x _ y h (starts_with_self y _)) k

find-any :
    (p q : FileRow → Bool) (rows : List FileRow) (r : FileRow)
    → find p rows ≡ some r
    → q r ≡ true
    → any (λ s. p s && q s) rows ≡ true
find-any p q [] r e h = cc
find-any p q (s ∷ rows) r e h = ground (arith, find-any p q rows r)

-- What a loop over the ancestors `dirs` has done.
pub record Made (p : Str) (dirs : List Str) (rows rows' : List FileRow) : Type 0 where
  pub grow :
      (q x : Str)
      → any (at_path q x) rows' ≡ true
      → (any (at_path q x) rows ≡ true) ⊎ ((q ≡ p) × (listed dirs x ≡ true))
  pub kept : (q x : Str) → any (dir_at q x) rows ≡ true → any (dir_at q x) rows' ≡ true
  pub made : (x : Str) → listed dirs x ≡ true → any (dir_at p x) rows' ≡ true

listed-cons : (a x : Str) (dirs : List Str) → listed (a ∷ dirs) x ≡ (a === x || listed dirs x)
listed-cons a x dirs = refl

-- A new directory row for `a`.
pub new-Made :
    (p a : Str) (rows : List FileRow) (r : FileRow)
    → r.project_id ≡ p
    → r.path ≡ a
    → r.is_dir ≡ true
    → Made p (a ∷ []) rows (rows ++ r ∷ [])
unfolding at_path
new-Made p a rows r hp ha hd = record {
  grow = λ q x h. ground (
    arith,
    any-append (at_path q x) rows (r ∷ []),
    ===_iff r.project_id q,
    ===_iff r.path x,
    ===_iff a x,
  );
  kept = λ q x h. ground (arith, any-append (dir_at q x) rows (r ∷ []));
  made = λ x h. ground (
    arith,
    any-append (dir_at p x) rows (r ∷ []),
    ===_iff r.project_id p,
    ===_iff r.path x,
    ===_iff a x,
  );
}

-- `a` is a directory row already.
pub old-Made :
    (p a : Str) (rows : List FileRow) (r : FileRow)
    → find (at_path p a) rows ≡ some r
    → r.is_dir ≡ true
    → Made p (a ∷ []) rows rows
old-Made p a rows r there hd = record {
  grow = λ q x h. inl h;
  kept = λ q x h. h;
  made = λ x h.
      let same : a ≡ x = ground (arith, ===_iff a x) in
      rw (← same) (find-any (at_path p a) (λ s. s.is_dir) rows r there hd);
}

pub both-Made :
    (p a : Str) (dirs : List Str) (r1 r2 r3 : List FileRow)
    → Made p (a ∷ []) r1 r2
    → Made p dirs r2 r3
    → Made p (a ∷ dirs) r1 r3
both-Made p a dirs r1 r2 r3 f g = record {
  grow = λ q x h. ground (arith, g.grow q x h, f.grow q x);
  kept = λ q x h. g.kept q x (f.kept q x h);
  made = λ x h. ground (arith, g.made x, f.made x, g.kept p x);
}

-- The rows after the loop, whose ancestors are old ones or those of `path`.
Made-parents :
    (p path : Str) (rows rows' : List FileRow)
    → Made p (ancestor_paths path) rows rows'
    → Rooted rows
    → (q x a : Str) → any (at_path q x) rows' ≡ true
    → is_descendant_of x a ≡ true
    → any (dir_at q a) rows' ≡ true
Made-parents p path rows rows' m v q x a h below = elim (m.grow q x h) [
  | inl old ↦ m.kept q a (v.parents q x a old below)
  | inr (same, above) ↦
      let under =
        is_descendant_of_trans path x a (sym (ancestor_paths-is_descendant_of path x) ∙ above)
          below in
      rw same (m.made a (ancestor_paths-is_descendant_of path a ∙ under))
]

pub append-Rooted :
    (p path : Str) (rows rows' : List FileRow) (r : FileRow)
    → r.project_id ≡ p
    → r.path ≡ path
    → Made p (ancestor_paths path) rows rows'
    → Rooted rows
    → Rooted (rows' ++ r ∷ [])
unfolding at_path
append-Rooted p path rows rows' r hp hx m v = record {
  parents = λ q x a h below. ground (
    arith,
    any-append (at_path q x) rows' (r ∷ []),
    any-append (dir_at q a) rows' (r ∷ []),
    Made-parents p path rows rows' m v q x a,
    ===_iff r.project_id q,
    ===_iff r.path x,
    ancestor_paths-is_descendant_of path a,
    m.made a,
  );
}
