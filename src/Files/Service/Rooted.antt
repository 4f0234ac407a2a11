-- ===== src/Files/Service/Rooted.antt =====
-- files/service.ts: creating, and the directories above a path.
use collab_ide.Base.{
  ◌≡◌, refl, sym, ap, subst, inl, Bool, true, false, Option, none, some, List, [], ◌∷◌, ◌++◌, any,
  find, Str, ===_iff, ===_refl, ok, throw_if, or_throw, conflict, bind_ok, then_ok, create_ok,
  is_some, arith,
}
use collab_ide.Database.{Table, find_first}
use collab_ide.Database.Distinct.{create_inv}
use collab_ide.Files.Rows.{FileRow, at_path, same_path}
use collab_ide.Files.Paths.Valid.{IsValidPath, assert_valid_path_iff}
use collab_ide.Files.Paths.{Unknown, string, assert_valid_path, ancestor_paths}
use collab_ide.Files.Service.{row_of, make_parent, make_parents, create_file, path_exists}
use collab_ide.Files.Service.Parents.{Rooted, Made, new-Made, old-Made, both-Made, append-Rooted}

is_some-none {ℓ} : {A : Type ℓ} (o : Option A) → is_some o ≡ false → o ≡ none
is_some-none none h = refl
is_some-none (some a) h = cc

find-last :
    (q : FileRow → Bool) (rows : List FileRow) (r : FileRow)
    → any q rows ≡ false
    → q r ≡ true
    → find q (rows ++ r ∷ []) ≡ some r
find-last q [] r none_there h = ground arith
find-last q (s ∷ rows) r none_there h = ground (arith, find-last q rows r)

module _ (t : Table FileRow same_path) (new_id : Str → Str) where
  make_parent-Made :
      (p a : Str) (o : Option FileRow) (d d' : t.Db)
      → find_first t (at_path p a) d ≡ o
      → make_parent t new_id p a o d ≡ ok d'
      → Made p (a ∷ []) (t.rows d) (t.rows d')
  unfolding make_parent
  make_parent-Made p a none d d' there e =
      let row = row_of t new_id p a true in
      let (_, rows) = create_inv t row d (create_ok (t.create row d) conflict d' e) in
      rw rows (new-Made p a (t.rows d) row refl refl refl)
  make_parent-Made p a (some r) d d' there e =
      let dir : r.is_dir ≡ true = ground arith in
      let same : d ≡ d' = ground arith in rw (← same) (old-Made p a (t.rows d) r there dir)

  make_parents-Made :
      (p : Str) (dirs : List Str) (d d' : t.Db)
      → make_parents t new_id p dirs d ≡ ok d'
      → Made p dirs (t.rows d) (t.rows d')
  unfolding make_parents
  make_parents-Made p [] d d' e =
      let same : d ≡ d' = ground arith in
      rw (← same) (record { grow = λ q x h. inl h; kept = λ q x h. h; made = λ x h. cc })
  make_parents-Made p (a ∷ dirs) d d' e =
      let (m, one, rest) =
        bind_ok (make_parent t new_id p a (find_first t (at_path p a) d) d)
          (λ made. make_parents t new_id p dirs made) d' e in
      both-Made p a dirs (t.rows d) (t.rows m) (t.rows d')
        (make_parent-Made p a (find_first t (at_path p a) d) d m refl one)
        (make_parents-Made p dirs m d' rest)

  record Created (p : Str) (raw : Unknown) (is_dir : Bool) (d : t.Db) (row : FileRow) (d' : t.Db)
      : Type 0 where
    path : Str
    named : assert_valid_path raw ≡ ok path
    vacant : is_some (find_first t (at_path p path) d) ≡ false
    made : t.Db
    parents : make_parents t new_id p (ancestor_paths path) d ≡ ok made
    row_is : row ≡ row_of t new_id p path is_dir
    created : t.create row made ≡ some d'

  create_file_inv :
      (p : Str) (raw : Unknown) (is_dir : Bool) (d : t.Db) (row : FileRow) (d' : t.Db)
      → create_file t new_id p raw is_dir d ≡ ok (row, d')
      → Created p raw is_dir d row d'
  unfolding create_file
  create_file_inv p raw is_dir d row d' e =
      let (path, named, e1) = bind_ok (assert_valid_path raw) _ (row, d') e in
      let (vacant, e2) =
        then_ok (throw_if (is_some (find_first t (at_path p path) d)) path_exists) _ (row, d') e1 in
      let (made, parents, e3) =
        bind_ok (make_parents t new_id p (ancestor_paths path) d) _ (row, d') e2 in
      let (c, created, e4) =
        bind_ok (or_throw (t.create (row_of t new_id p path is_dir) made) conflict) _ (row, d')
          e3 in
      let same_row : row_of t new_id p path is_dir ≡ row = ground arith in
      let same_db : c ≡ d' = ground arith in
      record {
        path = path;
        named = named;
        vacant = ground arith;
        made = made;
        parents = parents;
        row_is = sym same_row;
        created = rw (← same_row, ← same_db) (create_ok _ conflict c created);
      }

  -- Where each ancestor of each path in a project is a directory row of that project, it is so after creating a file or directory with whatever parents it has to make.
  pub create_file-Rooted :
      (p : Str) (raw : Unknown) (is_dir : Bool) (d : t.Db) (row : FileRow) (d' : t.Db)
      → create_file t new_id p raw is_dir d ≡ ok (row, d')
      → Rooted (t.rows d)
      → Rooted (t.rows d')
  create_file-Rooted p raw is_dir d row d' e v =
      let c = create_file_inv p raw is_dir d row d' e in
      let (_, rows) = create_inv t row c.made c.created in
      let m = make_parents-Made p (ancestor_paths c.path) d c.made c.parents in
      rw rows (
        append-Rooted p c.path (t.rows d) (t.rows c.made) row (ap (λ r. r.project_id) c.row_is)
          (ap (λ r. r.path) c.row_is) m v)

  -- What is created has the path that was asked for, which is valid and was free, and it is found at that path in the project afterwards.
  pub create_file-find_first :
      (p : Str) (raw : Unknown) (is_dir : Bool) (d : t.Db) (row : FileRow) (d' : t.Db)
      → create_file t new_id p raw is_dir d ≡ ok (row, d')
      → (raw ≡ string row.path)
        × IsValidPath row.path
        × (find_first t (at_path p row.path) d ≡ none)
        × (find_first t (at_path p row.path) d' ≡ some row)
  unfolding same_path at_path
  create_file-find_first p raw is_dir d row d' e =
      let c = create_file_inv p raw is_dir d row d' e in
      let (new, rows) = create_inv t row c.made c.created in
      let there : row.path ≡ c.path = ap (λ r. r.path) c.row_is in
      let mine : row.project_id ≡ p = ap (λ r. r.project_id) c.row_is in
      let (same, valid) = (assert_valid_path_iff raw c.path).0 c.named in
      (
        rw there same,
        rw there valid,
        rw there (is_some-none (find_first t (at_path p c.path) d) c.vacant),
        rw rows (
            find-last (at_path p row.path) (t.rows c.made) row
              (subst (λ q. any (at_path q row.path) (t.rows c.made) ≡ false) mine new)
              (ground (arith, mine, ===_iff row.project_id p, ===_refl row.path))),
      )
